-- ===== src/Platform.antt =====
-- What the library uses of Zephyr: the settings subsystem, the private heap, and two build-time
-- constants. None of that code is in this repository, so it is a parameter of the model.
use Prim.Native.Char.{code}
use Prim.Native.String.{String}
use irnas_usersettings_lib.Base.{
  ℕ, ◌≤◌, ◌≡◌, Bool, true, Option, none, some, List, [], ◌∷◌, ◌++◌, Errno, ok, Status, Bytes,
  length, take, All, bytes_eq, if◌then◌else◌,
}

-- The bytes of an ASCII literal.
abbrev pub codes : String → Bytes
codes String.[] = []
codes (String.◌∷◌ c s) = code c ∷ codes s

-- The three `struct settings_handler` of user_settings_init.
pub data Handler : Type 0 where
  default_sh value_sh changed_sh : Handler

-- Their `.name`.
abbrev pub prefix : Handler → Bytes
prefix default_sh = codes "user_default"
prefix value_sh = codes "user"
prefix changed_sh = codes "user_changed"

-- sprintf(key_with_prefix, PREFIX "/%s", key)
abbrev pub full_name : Handler → Bytes → Bytes
full_name h key = prefix h ++ b'/' ∷ key

-- What `read_cb` returns: a negative error, or the bytes that it copied (none: a deleted pair).
pub data ReadResult : Type 0 where
  failed : Errno → ReadResult
  got : Bytes → ReadResult

-- The arguments of an `h_set` callback; `read` takes the size of the buffer.
pub record HandlerCall : Type 0 where
  pub key : Bytes
  pub len : ℕ
  pub read : ℕ → ReadResult

-- settings_runtime_set finds the handler and calls its `h_set` once, or fails.
pub data Dispatch : Type 0 where
  not_found : Errno → Dispatch
  calls : Handler → HandlerCall → Dispatch

-- `Subsys` is the state of the settings subsystem, its backend storage included.
pub record Platform (Subsys Heap : Type 0) : Type 0 where
  pub settings_subsys_init : Subsys → Status × Subsys
  pub settings_register : Handler → Subsys → Status × Subsys
  -- the calls that it makes, in order, and its result
  pub settings_load_subtree : Bytes → Subsys → List (Handler × HandlerCall) × Status
  pub settings_runtime_set : Bytes → Bytes → Subsys → Dispatch
  pub settings_save_one : Bytes → Bytes → Subsys → Status × Subsys
  pub k_heap_aligned_alloc : ℕ → Heap → Option Heap
  pub sizeof_user_setting : ℕ
  pub settings_max_name_len : ℕ
  -- CONFIG_USER_SETTINGS_DEFAULT_OVERWRITE
  pub default_overwrite : Bool

-- A read callback over bytes in memory: it copies as many as fit.
abbrev pub read_bytes : Bytes → ℕ → ReadResult
read_bytes bs size = got (take size bs)

abbrev pub IsBounded : Handler × HandlerCall → Type 0
IsBounded (h, c) = (size : ℕ) (bs : Bytes) → c.read size ≡ got bs → length bs ≤ size

-- Saving no bytes deletes the pair.
abbrev pub saved : Bytes → Option Bytes
saved [] = none
saved (b ∷ bs) = some (b ∷ bs)

-- What the documentation of the settings subsystem promises, in terms of which handlers are
-- registered and which value is stored under a name.
pub record PlatformLaws {Subsys Heap : Type 0} (z : Platform Subsys Heap) : Type 0 where
  pub registered : Handler → Subsys → Bool
  pub stored : Bytes → Subsys → Option Bytes
  pub runtime_set_calls :
      (h : Handler) (key bs : Bytes) (sub : Subsys)
      → registered h sub ≡ true
      → z.settings_runtime_set (full_name h key) bs sub
        ≡ calls h (record { key = key; len = length bs; read = read_bytes bs })
  pub save_registered :
      (h : Handler) (name bs : Bytes) (sub : Subsys)
      → registered h (z.settings_save_one name bs sub).1 ≡ registered h sub
  pub save_stored :
      (name bs other : Bytes) (sub : Subsys)
      → (z.settings_save_one name bs sub).0 ≡ ok tt
      → stored other (z.settings_save_one name bs sub).1
        ≡ (if bytes_eq name other then saved bs else stored other sub)
  pub load_bounded :
      (name : Bytes) (sub : Subsys) → All IsBounded (z.settings_load_subtree name sub).0
