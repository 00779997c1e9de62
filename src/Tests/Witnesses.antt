-- ===== src/Tests/Witnesses.antt =====
-- The theorems at concrete settings: the library.
use irnas_usersettings_lib.Base.{ℕ, ◌≡◌, refl, true, some, [], ◌∷◌, bytes_eq, take, Bytes, ok, done}
use irnas_usersettings_lib.Platform.{codes}
use irnas_usersettings_lib.State.{State}
use irnas_usersettings_lib.SettingsList.{get_by_key, get_by_id}
use irnas_usersettings_lib.Settings.Handlers.{with_value, h_set}
use irnas_usersettings_lib.Settings.Change.{
  set_and_save, prv_set_changed_recently_flag, set_with_key, set_with_id, prv_user_settings_set,
}
use irnas_usersettings_lib.Settings.Query.{get_with_key}
use irnas_usersettings_lib.Settings.Values.{value_saved, flag_saved}
use irnas_usersettings_lib.Settings.RoundTrip.{get-set_with_key}
use irnas_usersettings_lib.Tests.{
  Log, platform, platform_laws, name_setting, two_settings, two_settings-IsReady,
}

abbrev pub new_value : Bytes
new_value = 3 ∷ 4 ∷ 5 ∷ []

abbrev pub after_set : State Log ℕ
after_set =
    flag_saved (platform true) 0 (with_value new_value name_setting) true
      (value_saved (platform true) 0 name_setting new_value two_settings)

set_name :
    set_with_key (platform true) (codes "name") new_value two_settings ≡ done (ok tt, after_set)
unfolding set_with_key get_by_key bytes_eq prv_user_settings_set set_and_save h_set
    prv_set_changed_recently_flag
set_name = refl

set_one : set_with_id (platform true) 1 new_value two_settings ≡ done (ok tt, after_set)
unfolding set_with_id get_by_id bytes_eq get_by_key prv_user_settings_set set_and_save h_set
    prv_set_changed_recently_flag
set_one = refl

name_at : get_by_key (codes "name") two_settings.settings ≡ some 0
unfolding get_by_key bytes_eq
name_at = refl

one_at : get_by_id 1 two_settings.settings ≡ some 0
unfolding get_by_id
one_at = refl

get-set_with_key_example :
    (block : Bytes) × (len : ℕ) × (get_with_key (codes "name") after_set
      ≡ done (some (block, len), after_set))
    × (take len block ≡ new_value)
get-set_with_key_example =
    get-set_with_key (platform_laws true) two_settings after_set (two_settings-IsReady true) 3
      (4 ∷ 5 ∷ []) (codes "name") 0 name_at set_name
