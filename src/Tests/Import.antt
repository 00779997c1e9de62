-- ===== src/Tests/Import.antt =====
-- The theorems at concrete settings: JSON.
use irnas_usersettings_lib.Base.{
  ℕ, suc, ◌≡◌, ◌≢◌, refl, arith, true, false, none, some, List, [], ◌∷◌, ◌++◌, map, take, replicate,
  bytes_eq, Bytes, get_elem?, ◌>>=◌, ok, done, fault, out_of_bounds, inl, inr,
}
use irnas_usersettings_lib.Setting.{UserSetting, type_str, type_u64}
use irnas_usersettings_lib.Platform.{codes}
use irnas_usersettings_lib.SettingsList.{get_by_key, new_setting}
use irnas_usersettings_lib.Settings.Changed.{changed_only}
use irnas_usersettings_lib.Json.{
  json_invalid, json_true, json_false, json_number, json_string, JsonItem, CJson, Building, mark,
  prv_set_from_json, get_all_json, get_changed_json, set_from_json,
}
use irnas_usersettings_lib.Json.Values.{HasMemory}
use irnas_usersettings_lib.Json.Plain.{as_json}
use irnas_usersettings_lib.Settings.Change.{set_with_key}
use irnas_usersettings_lib.Json.Export.{get_json_lem, get_all_json_overrun}
use irnas_usersettings_lib.Json.Carried.{IsPortable}
use irnas_usersettings_lib.Json.RoundTrip.{
  set_from_json-get_all_json, u64_lost, set_from_json_skips,
}
use irnas_usersettings_lib.Json.Overrun.{set_from_json_overrun}
use irnas_usersettings_lib.Tests.{
  platform, platform_laws, name_setting, level_setting, two_settings, two_settings-IsReady,
}

-- A cJSON that counts its allocations.
abbrev counting : CJson ℕ
counting = record {
  create_object = λ n. (true, suc n);
  create_true = λ n. (some json_true, suc n);
  create_false = λ n. (some json_false, suc n);
  create_number = λ v n. (some (json_number v), suc n);
  create_string = λ s n. (some (json_string s), suc n);
  add_item_to_object = λ o key v n. (o ++ record { string = key; value = v } ∷ [], suc n);
}

counting-HasMemory : HasMemory counting
counting-HasMemory = record {
  object_lem = λ h. refl;
  true_lem = λ h. refl;
  false_lem = λ h. refl;
  number_lem = λ v h. refl;
  string_lem = λ s h. refl;
  add_lem = λ o key v h. refl;
}

abbrev nothing : Building ℕ
nothing = record { heap = 0; object = [] }

name_setting-IsPortable : IsPortable name_setting
name_setting-IsPortable = record {
  fits = omega arith;
  bytes = (omega arith, (omega arith, (omega arith, (omega arith, tt))));
  typed = omega arith;
}

level_setting-IsPortable : IsPortable level_setting
level_setting-IsPortable = record { fits = omega arith; bytes = (omega arith, tt); typed = refl }

set_from_json-get_all_json_example :
    (object : List JsonItem) × (b : Building ℕ) × (get_all_json counting two_settings.settings
        nothing
      ≡ done (ok object, b))
    × (set_from_json (platform true) (some object) false two_settings ≡ done (ok tt, two_settings))
set_from_json-get_all_json_example =
    set_from_json-get_all_json (platform_laws true) counting counting-HasMemory two_settings
      (two_settings-IsReady true) nothing (name_setting-IsPortable, (level_setting-IsPortable, tt))

get_json_lem_example :
    ((h : ℕ) × (get_all_json counting two_settings.settings nothing
        ≡ done (
          ok (map as_json two_settings.settings),
          record { heap = h; object = map as_json two_settings.settings },
        )))
    × ((h : ℕ) × (get_changed_json counting two_settings.settings nothing
          ≡ done (
            ok (map as_json (changed_only two_settings.settings)),
            record { heap = h; object = map as_json (changed_only two_settings.settings) },
          )))
get_json_lem_example =
    get_json_lem counting counting-HasMemory two_settings.settings nothing
      (omega arith, (omega arith, tt)) (tt, (omega arith, tt))

-- A string of three letters that fill the block.
abbrev full_string : UserSetting
full_string = record (new_setting 2 (codes "full") type_str 3) {
  value = codes "abc";
  value_len = 3;
  is_set = true;
}

get_all_json_overrun_example :
    get_all_json counting (level_setting ∷ full_string ∷ []) nothing ≡ fault out_of_bounds
get_all_json_overrun_example =
    get_all_json_overrun counting counting-HasMemory (level_setting ∷ []) full_string [] nothing
      (omega arith, tt) refl refl

-- 2 ^ 31
abbrev large : UserSetting
large = record (new_setting 3 (codes "large") type_u64 8) {
  value = 0 ∷ 0 ∷ 0 ∷ 128 ∷ 0 ∷ 0 ∷ 0 ∷ 0 ∷ [];
  value_len = 8;
  is_set = true;
}

u64_lost_example :
    (object : List JsonItem) × (item : JsonItem) × (b : Building ℕ) × (bs : Bytes) × (get_all_json
        counting
        (level_setting ∷ large ∷ [])
        nothing
      ≡ done (ok object, b))
    × (get_elem? object 1 ≡ some item)
    × (prv_set_from_json (platform true) type_u64 item false two_settings
        ≡ (set_with_key (platform true) (codes "large") bs
              >>= mark (platform true) false (codes "large"))
            two_settings)
    × (bs ≢ take 8 large.value)
u64_lost_example =
    u64_lost (platform true) counting counting-HasMemory two_settings false nothing
      (level_setting ∷ large ∷ []) 1 large (omega arith, (omega arith, tt)) refl refl (omega arith)
      (omega arith)

-- One item of each kind that is skipped.
abbrev three_items : List JsonItem
three_items =
    record { string = codes "level"; value = json_invalid }
    ∷ record { string = codes "nobody"; value = json_true }
    ∷ record { string = codes "level"; value = json_string (codes "9") }
    ∷ []

nobody : get_by_key (codes "nobody") two_settings.settings ≡ none
unfolding get_by_key bytes_eq
nobody = refl

set_from_json_skips_example :
    set_from_json (platform true) (some three_items) true two_settings ≡ done (ok tt, two_settings)
set_from_json_skips_example =
    set_from_json_skips (platform_laws true) two_settings (two_settings-IsReady true) true
      three_items
      (inl refl, (inr (inl nobody), (inr (inr (1, level_setting, refl, refl, refl)), tt)))

abbrev long_text : Bytes
long_text = replicate 2050 b'0'

set_from_json_overrun_example :
    set_from_json
      (platform true)
      (some (record { string = codes "name"; value = json_string long_text } ∷ []))
      false
      two_settings
    ≡ fault out_of_bounds
set_from_json_overrun_example =
    set_from_json_overrun (platform_laws true) two_settings (two_settings-IsReady true) 0
      name_setting long_text [] false refl refl (omega arith)
