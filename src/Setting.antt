-- ===== src/Setting.antt =====
-- One user setting: `enum user_setting_type` (library/include/user_settings_types.h) and
-- `struct user_setting` (library/user_settings/user_settings_list.h).
use irnas_usersettings_lib.Base.{ℕ, ◌≤◌, ◌<◌, ◌≡◌, ◌^◌, Bool, true, false, Option, length, Bytes}

pub data UserSettingType : Type 0 where
  type_bool type_u8 type_u16 type_u32 type_u64 : UserSettingType
  type_i8 type_i16 type_i32 type_i64 : UserSettingType
  type_str type_bytes : UserSettingType

-- The value of the enumerator.
abbrev pub type_code : UserSettingType → ℕ
type_code type_bool = 0
type_code type_u8 = 1
type_code type_u16 = 2
type_code type_u32 = 3
type_code type_u64 = 4
type_code type_i8 = 5
type_code type_i16 = 6
type_code type_i32 = 7
type_code type_i64 = 8
type_code type_str = 9
type_code type_bytes = 10

-- `type == USER_SETTINGS_TYPE_STR || type == USER_SETTINGS_TYPE_BYTES`
abbrev pub is_sized_type : UserSettingType → Bool
is_sized_type type_str = true
is_sized_type type_bytes = true
is_sized_type _ = false

-- A validation callback; the data and its length are one byte string. `on_change` callbacks are
-- named by numbers: the model records that they are called.
abbrev pub ValidateCb : Type 0
ValidateCb = ℕ → Bytes → Bytes → Bool

-- The list node is the position in the list. `data` and `default_data` are the two blocks of
-- `max_size` bytes, of which the first `data_len` and `default_data_len` are in use.
pub record UserSetting : Type 0 where
  pub id : ℕ
  pub key : Bytes
  pub setting_type : UserSettingType
  pub max_size : ℕ
  pub value : Bytes
  pub value_len : ℕ
  pub is_set : Bool
  pub default_value : Bytes
  pub default_value_len : ℕ
  pub default_is_set : Bool
  pub has_changed_recently : Bool
  pub on_change_cb : Option ℕ
  pub validate_cb : Option ValidateCb

-- What the comments of the struct promise of one setting; one that is not set is empty.
pub record IsSound (us : UserSetting) : Type 0 where
  pub id_fits : us.id < 2 ^ 16
  pub block : length us.value ≡ us.max_size
  pub default_block : length us.default_value ≡ us.max_size
  pub fits : us.value_len ≤ us.max_size
  pub default_fits : us.default_value_len ≤ us.max_size
  pub unset_is_empty : us.is_set ≡ false → us.value_len ≡ 0
  pub no_default_is_empty : us.default_is_set ≡ false → us.default_value_len ≡ 0
