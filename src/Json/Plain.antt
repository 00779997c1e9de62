-- ===== src/Json/Plain.antt =====
-- The settings as JSON without conversions between integer types, and where what
-- library/user_settings/user_settings_json.c exports agrees with that.
use irnas_usersettings_lib.Base.{
  ◌<◌, ◌^◌, ◌≡◌, refl, ap, ◌∙◌, arith, Bool, true, false, Option, none, some, List, [], ◌∷◌, map,
  take, All, ◌==◌, if◌then◌else◌, Bool-cases, inl, inr,
}
use irnas_usersettings_lib.Setting.{
  UserSetting, UserSettingType, type_bool, type_u8, type_u16, type_u32, type_u64, type_i8, type_i16,
  type_i32, type_i64, type_str, type_bytes,
}
use irnas_usersettings_lib.Memory.{ℤ, pos, negsuc, as_signed, to_int, le_value, text}
use irnas_usersettings_lib.Hex.{hex_encode}
use irnas_usersettings_lib.Settings.Changed.{changed_only}
use irnas_usersettings_lib.Json.{
  JsonValue, json_true, json_false, json_number, json_string, JsonItem,
}
use irnas_usersettings_lib.Json.Values.{json_value, exported}

-- The number that the bytes of a setting are.
abbrev number_of : UserSettingType → UserSetting → Option ℤ
number_of type_u8 us = some (pos (le_value (take 1 us.value)))
number_of type_u16 us = some (pos (le_value (take 2 us.value)))
number_of type_u32 us = some (pos (le_value (take 4 us.value)))
number_of type_u64 us = some (pos (le_value (take 8 us.value)))
number_of type_i8 us = some (as_signed 8 (le_value (take 1 us.value)))
number_of type_i16 us = some (as_signed 16 (le_value (take 2 us.value)))
number_of type_i32 us = some (as_signed 32 (le_value (take 4 us.value)))
number_of type_i64 us = some (as_signed 64 (le_value (take 8 us.value)))
number_of _ us = none

-- A number from -2^31 to 2^31 - 1, if it is one.
abbrev IsInt : Option ℤ → Type 0
IsInt none = Unit
IsInt (some (pos n)) = n < 2 ^ 31
IsInt (some (negsuc n)) = n < 2 ^ 31

abbrev pub FitsInt : UserSetting → Type 0
FitsInt us = IsInt (number_of us.setting_type us)

-- What is not a number.
abbrev other_value : UserSettingType → UserSetting → JsonValue
other_value type_bool us = if le_value (take 1 us.value) == 0 then json_false else json_true
other_value type_str us = json_string (text us.value)
other_value type us = json_string (hex_encode (take us.value_len us.value))

abbrev value_as_json : UserSettingType → UserSetting → JsonValue
value_as_json type us = elim (number_of type us) [
  | none ↦ other_value type us
  | some n ↦ json_number n
]

abbrev pub as_json : UserSetting → JsonItem
as_json us = record { string = us.key; value = value_as_json us.setting_type us }

to_int_lem : (n : ℤ) → IsInt (some n) → to_int n ≡ n
to_int_lem (pos n) h = ground arith
to_int_lem (negsuc n) h = ground arith

json_value-value_as_json :
    (type : UserSettingType) (us : UserSetting)
    → IsInt (number_of type us)
    → json_value type us ≡ value_as_json type us
json_value-value_as_json type_bool us h = elim (Bool-cases (le_value (take 1 us.value) == 0)) [
  | inl zero_byte ↦ ground (arith, zero_byte)
  | inr other ↦ ground (arith, other)
]
json_value-value_as_json type_u8 us h = ap json_number (to_int_lem _ h)
json_value-value_as_json type_u16 us h = ap json_number (to_int_lem _ h)
json_value-value_as_json type_u32 us h = ap json_number (to_int_lem _ h)
json_value-value_as_json type_u64 us h = ap json_number (to_int_lem _ h)
json_value-value_as_json type_i8 us h = ap json_number (to_int_lem _ h)
json_value-value_as_json type_i16 us h = ap json_number (to_int_lem _ h)
json_value-value_as_json type_i32 us h = ap json_number (to_int_lem _ h)
json_value-value_as_json type_i64 us h = ap json_number (to_int_lem _ h)
json_value-value_as_json type_str us h = refl
json_value-value_as_json type_bytes us h = refl

same_item : (us : UserSetting) → FitsInt us → exported us ≡ as_json us
same_item us h =
    ap (λ v. record { string = us.key; value = v }) (json_value-value_as_json us.setting_type us h)

pub exported-as_json : (l : List UserSetting) → All FitsInt l → map exported l ≡ map as_json l
exported-as_json [] h = refl
exported-as_json (us ∷ l) h =
    ap (λ item. item ∷ map exported l) (same_item us h.0)
    ∙ ap (λ items. as_json us ∷ items) (exported-as_json l h.1)

FitsInt-if :
    (flag : Bool) (us : UserSetting) (l : List UserSetting)
    → FitsInt us
    → All FitsInt l
    → All FitsInt (if flag then us ∷ l else l)
FitsInt-if true us l h t = (h, t)
FitsInt-if false us l h t = t

changed_only-FitsInt : (l : List UserSetting) → All FitsInt l → All FitsInt (changed_only l)
changed_only-FitsInt [] h = tt
changed_only-FitsInt (us ∷ l) h =
    FitsInt-if us.has_changed_recently us (changed_only l) h.0 (changed_only-FitsInt l h.1)

pub exported_changed-as_json :
    (l : List UserSetting)
    → All FitsInt l
    → map exported (changed_only l) ≡ map as_json (changed_only l)
exported_changed-as_json l h = exported-as_json (changed_only l) (changed_only-FitsInt l h)
