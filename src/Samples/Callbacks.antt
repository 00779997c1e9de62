-- ===== src/Samples/Callbacks.antt =====
-- The program samples/callbacks/src/main.c: its validation callbacks, which ask the library for the
-- type of the setting, its on_change callbacks, and its `main`.
pub mod Verdicts
pub mod Registered
pub mod Run
pub mod Changes
use irnas_usersettings_lib.Base.{
  ℕ, ◌+◌, ◌-◌, ◌*◌, ◌%◌, ◌^◌, Bool, true, false, ◌||◌, Option, none, some, Bytes, ltb,
  if◌then◌else◌, M, ◌>>=◌, ◌>>◌, pure, stop, bad_pointer, [], ◌∷◌, ◌==◌,
}
use irnas_usersettings_lib.Memory.{to_unsigned, le_value, read_prefix, read_string}
use irnas_usersettings_lib.Setting.{
  UserSettingType, ValidateCb, type_u8, type_u16, type_u32, type_u64, type_i8, type_i16, type_i32,
  type_i64,
}
use irnas_usersettings_lib.State.{State}
use irnas_usersettings_lib.Settings.Query.{
  get_type_with_id, get_with_id, set_global_on_change_cb, set_on_change_cb_with_id,
  set_on_change_cb_with_key, set_validate_cb_with_key, set_validate_cb_with_id,
}
use irnas_usersettings_lib.Settings.Init.{init, load}
use irnas_usersettings_lib.Platform.{Platform, codes}
use irnas_usersettings_lib.Samples.{add_t1_t11}
use irnas_usersettings_lib.ValidationHelpers.{
  IntType, uint8, uint16, uint32, uint64, int8, int16, int32, int64, value_at, in_memory,
}

-- The cases of the `switch`; `none` is its default.
abbrev pub int_type : UserSettingType → Option IntType
int_type type_u8 = some uint8
int_type type_u16 = some uint16
int_type type_u32 = some uint32
int_type type_u64 = some uint64
int_type type_i8 = some int8
int_type type_i16 = some int16
int_type type_i32 = some int32
int_type type_i64 = some int64
int_type _ = none

-- `id * 10` and `(id + 1) * 10 - 1`, in 32 bits
abbrev pub lower : ℕ → ℕ
lower id = id * 10 % 2 ^ 32

abbrev pub upper : ℕ → ℕ
upper id = ((id + 1) % 2 ^ 32 * 10 % 2 ^ 32 + 2 ^ 32 - 1) % 2 ^ 32

abbrev pub in_bounds : ℕ → ℕ → Bool
in_bounds id val = if ltb val (lower id) || ltb (upper id) val then false else true

module _ {Subsys Heap : Type 0} (after : ℕ → ℕ) where
  -- The value is converted to uint64_t.
  unfoldable pub prv_validate_t2_t9 : ℕ → Bytes → Bytes → M (State Subsys Heap) Bool
  prv_validate_t2_t9 id key bs = do
    type ← get_type_with_id id
    elim (int_type type) [
      | none ↦ pure false
      | some t ↦ pure (in_bounds id (to_unsigned 64 (value_at t bs after)))
    ]

-- 'A' is 65 and 'Z' is 90.
unfoldable pub validate_t10 : (ℕ → ℕ) → ValidateCb
validate_t10 after id key bs =
    let first = le_value (in_memory 1 bs after) in
    if ltb first 65 || ltb 90 first then false else true

-- The pointers to prv_on_change_global, prv_on_change_t1 and prv_on_change_t2_t10.
abbrev pub on_change_global : ℕ
on_change_global = 1

abbrev pub on_change_t1 : ℕ
on_change_t1 = 2

abbrev pub on_change_t2_t10 : ℕ
on_change_t2_t10 = 3

module _ {Subsys Heap : Type 0} where
  -- What user_settings_get_with_id points to; a null pointer cannot be read.
  abbrev pub value_block : Option (Bytes × ℕ) → M (State Subsys Heap) Bytes
  value_block none = stop bad_pointer
  value_block (some (block, len)) = pure block

  -- The byte that is printed, as a `bool`.
  unfoldable pub prv_on_change_t1 : ℕ → Bytes → M (State Subsys Heap) Bytes
  prv_on_change_t1 id key = do p ← get_with_id 1; block ← value_block p; read_prefix 1 block

  -- The bytes that are printed, as a number or as a string.
  unfoldable pub prv_on_change_t2_t10 : ℕ → Bytes → M (State Subsys Heap) Bytes
  prv_on_change_t2_t10 id key =
      if id == 2
      then (do p ← get_with_id 2; block ← value_block p; read_prefix 1 block)
      else if id == 10
      then (do p ← get_with_id 10; block ← value_block p; read_string block)
      else pure []

module _ {Subsys Heap : Type 0} (after : ℕ → ℕ) (validate_t2_t9 : ValidateCb) where
  unfoldable pub register_callbacks : M (State Subsys Heap) (Unit {0})
  register_callbacks = do
    set_global_on_change_cb (some on_change_global)
    set_on_change_cb_with_id 1 (some on_change_t1)
    set_on_change_cb_with_key (codes "t2") (some on_change_t2_t10)
    set_on_change_cb_with_id 10 (some on_change_t2_t10)
    set_validate_cb_with_key (codes "t2") (some validate_t2_t9)
    set_validate_cb_with_key (codes "t3") (some validate_t2_t9)
    set_validate_cb_with_key (codes "t4") (some validate_t2_t9)
    set_validate_cb_with_key (codes "t5") (some validate_t2_t9)
    set_validate_cb_with_key (codes "t6") (some validate_t2_t9)
    set_validate_cb_with_key (codes "t7") (some validate_t2_t9)
    set_validate_cb_with_key (codes "t8") (some validate_t2_t9)
    set_validate_cb_with_key (codes "t9") (some validate_t2_t9)
    set_validate_cb_with_id 10 (some (validate_t10 after))

  -- `validate_t2_t9` stands for prv_validate_t2_t9, which asks the library for a type.
  unfoldable pub callbacks_main : Platform Subsys Heap → M (State Subsys Heap) ℕ
  unfolding add_t1_t11 register_callbacks
  callbacks_main z = do e ← init z; add_t1_t11 z; register_callbacks; load z; pure 0
