-- ===== src/Json/Import.antt =====
-- What user_settings_set_from_json of library/user_settings/user_settings_json.c does with an
-- object that user_settings_get_all_json built.
use irnas_usersettings_lib.Base.{
  ℕ, suc, ◌≤◌, ◌≡◌, inl, inr, ◌∙◌, refl, arith, true, false, some, List, [], ◌∷◌, map, length, take,
  drop, drop_cons, length-take, All, All-get, get_elem?, bytes_eq_refl, ◌==◌, Status, ok, done,
  bind_done, M, Bool-cases,
}
use irnas_usersettings_lib.Setting.{
  UserSetting, UserSettingType, type_bool, type_u8, type_u16, type_u32, type_u64, type_i8, type_i16,
  type_i32, type_i64, type_str, type_bytes, IsSound,
}
use irnas_usersettings_lib.Platform.{Platform, PlatformLaws}
use irnas_usersettings_lib.State.{State}
use irnas_usersettings_lib.Memory.{le_value}
use irnas_usersettings_lib.SettingsList.Lookup.{get_by_key_self}
use irnas_usersettings_lib.Settings.Change.{set_with_key}
use irnas_usersettings_lib.Settings.Query.{exists_with_key, get_type_with_key}
use irnas_usersettings_lib.Settings.Saving.{IsReady}
use irnas_usersettings_lib.Settings.Values.{same_value, set_rejects}
use irnas_usersettings_lib.Json.{
  json_bytes, is_invalid, set_bytes, mark, prv_set_from_json, set_item, set_items,
}
use irnas_usersettings_lib.Json.Carried.{IsPortable, carried}
use irnas_usersettings_lib.Json.Values.{json_value, exported}

module _ {Subsys Heap : Type 0} {z : Platform Subsys Heap} (laws : PlatformLaws z)
    (s : State Subsys Heap) (ready : IsReady laws s) where
  same_again :
      (us : UserSetting)
      → us.value_len ≤ length us.value
      → same_value us (take us.value_len us.value) ≡ true
  same_again us fits =
      let bs = take us.value_len us.value in
      let size : length bs ≡ us.value_len = length-take us.value_len us.value fits in
      rw size (ground (arith, bytes_eq_refl bs))

  set_again :
      (p : ℕ) (us : UserSetting)
      → get_elem? s.settings p ≡ some us
      → us.value_len ≤ length us.value
      → set_with_key z us.key (take us.value_len us.value) s ≡ done (ok tt, s)
  unfolding set_with_key
  set_again p us here fits =
      let found = get_by_key_self p us ready.well_formed here in
      let sound = All-get IsSound s.settings p ready.well_formed.sound here in
      let size : length (take us.value_len us.value) ≡ us.value_len =
        length-take us.value_len us.value fits in
      let again =
        (set_rejects laws p us s ready here (take us.value_len us.value)).1
          (omega (arith, sound.fits, size)) (same_again us fits) in
      ground (arith, ready.loaded, found, again)

  pub type_known :
      (p : ℕ) (us : UserSetting)
      → get_elem? s.settings p ≡ some us
      → (exists_with_key us.key s ≡ done (true, s))
        × (get_type_with_key us.key s ≡ done (us.setting_type, s))
  unfolding exists_with_key get_type_with_key
  type_known p us here =
      let found = get_by_key_self p us ready.well_formed here in
      (ground (arith, ready.loaded, found), ground (arith, ready.loaded, found))

  value_again :
      (p : ℕ) (us : UserSetting)
      → get_elem? s.settings p ≡ some us
      → IsPortable us
      → prv_set_from_json z us.setting_type (exported us) false s ≡ done (ok tt, s)
  unfolding prv_set_from_json
  value_again p us here t =
      bind_done (json_bytes us.setting_type (json_value us.setting_type us)) s
        (set_bytes z false us.key) (carried us.setting_type us s t.fits t.bytes t.typed)
      ∙ bind_done (set_with_key z us.key (take us.value_len us.value)) s (mark z false us.key)
          (set_again p us here t.fits)

  is_valid : (type : UserSettingType) (us : UserSetting) → is_invalid (json_value type us) ≡ false
  is_valid type_bool us = elim (Bool-cases (le_value (take 1 us.value) == 0)) [
    | inl is_zero ↦ rw is_zero refl
    | inr is_one ↦ rw is_one refl
  ]
  is_valid type_u8 us = refl
  is_valid type_u16 us = refl
  is_valid type_u32 us = refl
  is_valid type_u64 us = refl
  is_valid type_i8 us = refl
  is_valid type_i16 us = refl
  is_valid type_i32 us = refl
  is_valid type_i64 us = refl
  is_valid type_str us = refl
  is_valid type_bytes us = refl

  set_item-exported :
      (p : ℕ) (us : UserSetting) (rest : M (State Subsys Heap) Status)
      → get_elem? s.settings p ≡ some us
      → IsPortable us
      → set_item z (exported us) false rest s ≡ rest s
  unfolding set_item
  set_item-exported p us rest here t =
      let (known, typed) = type_known p us here in
      let again = value_again p us here t in
      let valid = is_valid us.setting_type us in ground (arith, known, typed, again, valid)

  pub set_items-exported :
      (rest : List UserSetting) (p : ℕ)
      → drop p s.settings ≡ rest
      → All IsPortable rest
      → set_items z (map exported rest) false s ≡ done (ok tt, s)
  unfolding set_items
  set_items-exported [] p e t = refl
  set_items-exported (us ∷ rest) p e t =
      set_item-exported p us (set_items z (map exported rest) false) (drop_cons p s.settings e).0
        t.0
      ∙ set_items-exported rest (suc p) (drop_cons p s.settings e).1 t.1
