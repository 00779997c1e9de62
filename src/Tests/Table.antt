-- ===== src/Tests/Table.antt =====
-- The theorems at concrete settings: sequences of calls as requests to the table of entries.
use irnas_usersettings_lib.Base.{ℕ, bytes_eq, true, false, refl, [], ◌∷◌, map, List}
use irnas_usersettings_lib.Platform.{codes, full_name, value_sh, default_sh}
use irnas_usersettings_lib.Settings.Calls.{call_all}
use irnas_usersettings_lib.Settings.Abstract.{
  entry, Request, request_set, request_set_default, request_mark, request_clear, as_call, serve_all,
}
use irnas_usersettings_lib.Settings.Abstract.Refinement.{Refines, call_all-Refines}
use irnas_usersettings_lib.State.{State}
use irnas_usersettings_lib.Settings.Saving.{IsReady}
use irnas_usersettings_lib.Settings.Abstract.Stored.{IsStored}
use irnas_usersettings_lib.Tests.{
  Log, platform, platform_laws, two_settings, two_settings-IsReady, two_settings-IsWellFormed,
}

-- A new value, a default that is refused, a new default, and a flag.
abbrev requests : List Request
requests =
    request_set (codes "name") 3 (4 ∷ [])
    ∷ request_set_default (codes "name") 8 []
    ∷ request_set_default (codes "level") 6 []
    ∷ request_clear (codes "name")
    ∷ request_mark (codes "level")
    ∷ []

-- The two settings with their values and defaults stored.
abbrev pub stored_settings : State Log ℕ
stored_settings = record two_settings {
  subsys =
      (full_name value_sh (codes "name"), 1 ∷ 2 ∷ [])
      ∷ (full_name default_sh (codes "name"), 7 ∷ [])
      ∷ (full_name value_sh (codes "level"), 9 ∷ [])
      ∷ [];
}

pub stored_settings-IsReady : IsReady (platform_laws true) stored_settings
unfolding platform_laws
stored_settings-IsReady = record {
  inited = refl;
  loaded = refl;
  well_formed = two_settings-IsWellFormed;
  registered = λ h. refl;
  names = (two_settings-IsReady true).names;
}

pub stored_settings-IsStored : IsStored (platform_laws true) stored_settings
unfolding platform_laws entry bytes_eq
stored_settings-IsStored = (
  record {
    value = refl;
    default = refl;
    flag = refl;
    value_filled = λ e. cc;
    default_filled = λ e. cc;
  },
  (
    record {
      value = refl;
      default = refl;
      flag = refl;
      value_filled = λ e. cc;
      default_filled = λ e. cc;
    },
    tt,
  ),
)

call_all-Refines_example :
    Refines
      (platform_laws true)
      (call_all (platform true) (map as_call requests) stored_settings)
      (serve_all false requests (map entry stored_settings.settings))
call_all-Refines_example =
    call_all-Refines (platform_laws true) (λ name bs sub. refl) requests stored_settings
      stored_settings-IsReady stored_settings-IsStored
