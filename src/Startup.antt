-- ===== src/Startup.antt =====
-- How an application starts the library: user_settings_init, a call of user_settings_add or
-- user_settings_add_sized for each of its settings, then user_settings_load, as the `main` of the
-- programs in samples/ do it.
pub mod Init
pub mod Declare
pub mod Loaded
pub mod Deliveries
pub mod Ready
pub mod Stored
pub mod Lifetime
pub mod Safety
use irnas_usersettings_lib.Base.{
  ℕ, ◌≡◌, true, false, Option, none, some, List, [], ◌∷◌, map, M, Bytes, Status, ◌>>=◌, ◌>>◌, pure,
}
use irnas_usersettings_lib.Setting.{
  UserSetting, UserSettingType, type_bool, type_u8, type_u16, type_u32, type_u64, type_i8, type_i16,
  type_i32, type_i64, type_str, type_bytes, is_sized_type,
}
use irnas_usersettings_lib.Platform.{Platform}
use irnas_usersettings_lib.State.{State}
use irnas_usersettings_lib.SettingsList.{new_setting}
use irnas_usersettings_lib.Settings.Init.{init, add, add_sized, load}

-- A setting as the application declares it: a call of user_settings_add, or of
-- user_settings_add_sized.
pub data Declaration : Type 0 where
  plain : ℕ → Bytes → UserSettingType → Declaration
  sized : ℕ → Bytes → UserSettingType → ℕ → Declaration

-- The function called is the one for the type.
abbrev pub IsProper : Declaration → Type 0
IsProper (plain id key type) = is_sized_type type ≡ false
IsProper (sized id key type size) = is_sized_type type ≡ true

-- The bytes of a value of a type that has one size.
abbrev pub byte_size : UserSettingType → ℕ
byte_size type_bool = 1
byte_size type_u8 = 1
byte_size type_u16 = 2
byte_size type_u32 = 4
byte_size type_u64 = 8
byte_size type_i8 = 1
byte_size type_i16 = 2
byte_size type_i32 = 4
byte_size type_i64 = 8
byte_size type_str = 0
byte_size type_bytes = 0

abbrev pub block_size : Declaration → ℕ
block_size (plain id key type) = byte_size type
block_size (sized id key type size) = size

-- The setting that it declares, without a value or a default.
abbrev pub declared : Declaration → UserSetting
declared (plain id key type) = new_setting id key type (byte_size type)
declared (sized id key type size) = new_setting id key type size

module _ {Subsys Heap : Type 0} (z : Platform Subsys Heap) where
  abbrev pub declare : Declaration → M (State Subsys Heap) (Unit {0})
  declare (plain id key type) = add z id key type
  declare (sized id key type size) = add_sized z id key type size

  unfoldable pub declare_all : List Declaration → M (State Subsys Heap) (Unit {0})
  declare_all [] = pure tt
  declare_all (d ∷ ds) = do declare d; declare_all ds

  -- What init returns is logged only.
  unfoldable pub start : List Declaration → M (State Subsys Heap) Status
  unfolding declare_all
  start ds = do err ← init z; declare_all ds; load z

  -- The blocks of a setting, one after the other: its struct, its value and its default.
  abbrev pub allocate : ℕ → Heap → Option Heap
  allocate size h₀ = elim (z.k_heap_aligned_alloc z.sizeof_user_setting h₀) [
    | none ↦ none
    | some h₁ ↦ elim (z.k_heap_aligned_alloc size h₁) [
      | none ↦ none
      | some h₂ ↦ z.k_heap_aligned_alloc size h₂
    ]
  ]

  -- The heap after the blocks of all settings; `none` if it does not hold them.
  abbrev pub allocate_all : List Declaration → Heap → Option Heap
  allocate_all [] h = some h
  allocate_all (d ∷ ds) h = elim (allocate (block_size d) h) [
    | none ↦ none
    | some h' ↦ allocate_all ds h'
  ]
