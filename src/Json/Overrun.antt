-- ===== src/Json/Overrun.antt =====
-- The buffer of 1024 bytes in prv_set_from_json of library/user_settings/user_settings_json.c.
use irnas_usersettings_lib.Base.{
  ℕ, ◌/◌, ◌<◌, ◌≡◌, refl, arith, Bool, true, some, List, ◌∷◌, length, get_elem?, Bytes, ltb, fault,
  out_of_bounds, bind_fault,
}
use irnas_usersettings_lib.Setting.{UserSetting, type_bytes}
use irnas_usersettings_lib.Platform.{Platform, PlatformLaws}
use irnas_usersettings_lib.State.{State}
use irnas_usersettings_lib.Settings.Saving.{IsReady}
use irnas_usersettings_lib.Json.{
  json_string, JsonItem, json_bytes, set_bytes, prv_set_from_json, set_item, set_items,
  set_from_json,
}
use irnas_usersettings_lib.Json.Import.{type_known}

module _ {Subsys Heap : Type 0} {z : Platform Subsys Heap} (laws : PlatformLaws z)
    (s : State Subsys Heap) (ready : IsReady laws s) where
  overrun :
      (text : Bytes) (key : Bytes) (always : Bool)
      → 1024 < length text / 2
      → prv_set_from_json z type_bytes (record { string = key; value = json_string text }) always s
        ≡ fault out_of_bounds
  unfolding prv_set_from_json json_bytes
  overrun text key always long =
      let large : ltb 1024 (length text / 2) ≡ true = larger (length text / 2) long in
      bind_fault (json_bytes type_bytes (json_string text)) s (set_bytes z always key)
        (rw large refl)
    where
      larger : (n : ℕ) → 1024 < n → ltb 1024 n ≡ true
      larger n h = ground arith

  -- In a library in order (IsReady): when the first item of the object has the key of a setting of
  -- bytes, of whatever size, and its value is a string of more than 2049 characters,
  -- user_settings_set_from_json writes past the end of its buffer of 1024 bytes.
  pub set_from_json_overrun :
      (p : ℕ) (us : UserSetting) (text : Bytes) (items : List JsonItem) (always : Bool)
      → get_elem? s.settings p ≡ some us
      → us.setting_type ≡ type_bytes
      → 1024 < length text / 2
      → set_from_json z
          (some (record { string = us.key; value = json_string text } ∷ items))
          always
          s
        ≡ fault out_of_bounds
  unfolding set_from_json set_items set_item
  set_from_json_overrun p us text items always here is_bytes long =
      let (known, typed) = type_known laws s ready p us here in
      ground (arith, known, typed, is_bytes, overrun text us.key always long)
