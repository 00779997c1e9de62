-- ===== src/Tests/Library.antt =====
-- The theorems at concrete settings: defaults, adding, lookups and iteration.
use irnas_usersettings_lib.Base.{
  ℕ, ◌≡◌, true, Option, none, some, List, [], ◌∷◌, ◌==◌, if◌then◌else◌, done, M,
}
use irnas_usersettings_lib.Setting.{UserSetting}
use irnas_usersettings_lib.Platform.{codes, full_name, value_sh}
use irnas_usersettings_lib.State.{State}
use irnas_usersettings_lib.SettingsList.{iter_start}
use irnas_usersettings_lib.Settings.Iter.{next, next_changed}
use irnas_usersettings_lib.Settings.Values.{flag_saved}
use irnas_usersettings_lib.Settings.Changed.{collect, next_visits_all, next_changed_visits_changed}
use irnas_usersettings_lib.Tests.{Log, platform, name_setting, level_setting, two_settings}

abbrev marked : List UserSetting
marked = name_setting ∷ record level_setting { has_changed_recently = true } ∷ []

abbrev restored : State Log ℕ
restored =
    flag_saved (platform true) 1 level_setting true
      (record two_settings { subsys = (full_name value_sh (codes "level"), []) ∷ [] })

abbrev return_at_one : ℕ → M (State Log ℕ) (Option ℕ)
return_at_one p s = done (if p == 1 then some p else none, s)

next_visits_all_example :
    collect next 3 iter_start two_settings.settings
    ≡ done ((codes "name", 1) ∷ (codes "level", 300) ∷ [])
next_visits_all_example = next_visits_all two_settings.settings

next_changed_visits_changed_example :
    collect next_changed 3 iter_start marked ≡ done ((codes "level", 300) ∷ [])
next_changed_visits_changed_example = next_changed_visits_changed marked
