-- ===== src/Tests/Restart.antt =====
-- The theorems at concrete settings: loading after a restart.
use irnas_usersettings_lib.Base.{ℕ, ◌≡◌, refl, true, false, some, [], ◌∷◌, map, ok, done}
use irnas_usersettings_lib.Setting.{type_bytes}
use irnas_usersettings_lib.Platform.{codes}
use irnas_usersettings_lib.State.{State}
use irnas_usersettings_lib.SettingsList.{new_setting}
use irnas_usersettings_lib.Settings.Init.{load}
use irnas_usersettings_lib.Settings.Restart.{from_storage, load-from_storage}
use irnas_usersettings_lib.Tests.{Log, platform, platform_laws, platform-LoadLaws}
use irnas_usersettings_lib.Tests.Witnesses.{after_set}

-- A later start of the program, with one setting added and the pairs that were saved.
abbrev restarted : State Log ℕ
restarted = record {
  settings = new_setting 1 (codes "name") type_bytes 4 ∷ [];
  heap = 1000;
  subsys = after_set.subsys;
  is_inited = true;
  is_loaded = false;
  global_on_change_cb = some 1;
  on_changes = [];
}

load-from_storage_example :
    load (platform true) restarted
    ≡ done (
      ok tt,
      record restarted {
        settings = map (from_storage (platform_laws true) after_set.subsys) restarted.settings;
        is_loaded = true;
      },
    )
unfolding platform_laws
load-from_storage_example =
    load-from_storage (platform_laws true) (platform-LoadLaws true) restarted refl refl (tt, tt)
      (λ h. refl)
