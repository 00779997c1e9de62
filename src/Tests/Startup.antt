-- ===== src/Tests/Startup.antt =====
-- The theorems at concrete settings: starting the library, and the life of a device.
use irnas_usersettings_lib.Base.{
  ℕ, Bool, ◌≤◌, refl, arith, false, true, none, List, [], ◌∷◌, map, length, bytes_eq, ◌>>=◌, All,
}
use irnas_usersettings_lib.Setting.{type_bytes, type_u8}
use irnas_usersettings_lib.Platform.{codes, Handler, default_sh, value_sh, changed_sh, full_name}
use irnas_usersettings_lib.State.{State}
use irnas_usersettings_lib.SettingsList.Lookup.{IsWellFormed}
use irnas_usersettings_lib.Settings.Saving.{NameFits}
use irnas_usersettings_lib.Settings.Calls.{
  sets, restores, clears_all, with_key, with_id, call_all, IsSafe,
}
use irnas_usersettings_lib.Settings.Abstract.{
  Request, request_set, request_set_default, request_clear,
}
use irnas_usersettings_lib.Settings.Abstract.FromStorage.{Holds}
use irnas_usersettings_lib.Startup.{Declaration, plain, sized, declared, start}
use irnas_usersettings_lib.Startup.Init.{StartLaws}
use irnas_usersettings_lib.Startup.Safety.{start-IsSafe}
use irnas_usersettings_lib.Startup.Lifetime.{
  Works, Leaves, sessions, serve_sessions, sessions-Leaves, table,
}
use irnas_usersettings_lib.Tests.{Log, platform, platform_laws, platform-LoadLaws}

pub platform-StartLaws : (works : Bool) → StartLaws (platform_laws works)
unfolding platform_laws
platform-StartLaws works = record {
  registers = λ h log e. refl;
  register_keeps = λ g h log e. refl;
  register_stored = λ h name log. refl;
  init_stored = λ name log. refl;
}

abbrev declarations : List Declaration
declarations = sized 1 (codes "name") type_bytes 4 ∷ plain 300 (codes "level") type_u8 ∷ []

declarations-IsWellFormed : IsWellFormed (map declared declarations)
declarations-IsWellFormed = ground arith

declarations-NameFits : All (NameFits 64) (map declared declarations)
declarations-NameFits = (name_fits, (level_fits, tt))
  where
    name_fits : (h : Handler) → length (full_name h (codes "name")) ≤ 64
    name_fits default_sh = omega arith
    name_fits value_sh = omega arith
    name_fits changed_sh = omega arith

    level_fits : (h : Handler) → length (full_name h (codes "level")) ≤ 64
    level_fits default_sh = omega arith
    level_fits value_sh = omega arith
    level_fits changed_sh = omega arith

-- Before the first start, with a value and a default in the storage.
abbrev pub powered_off : State Log ℕ
powered_off = record {
  settings = [];
  heap = 1000;
  subsys =
      (full_name value_sh (codes "name"), 1 ∷ 2 ∷ [])
      ∷ (full_name default_sh (codes "level"), 9 ∷ [])
      ∷ [];
  is_inited = false;
  is_loaded = false;
  global_on_change_cb = none;
  on_changes = [];
}

start-IsSafe_example : IsSafe (platform_laws false) 2 (
    (start (platform false) declarations >>= λ _.
    call_all
      (platform false)
      (sets (with_id 300) (7 ∷ []) ∷ restores (with_key (codes "no")) ∷ clears_all ∷ []))
      powered_off)
start-IsSafe_example =
    start-IsSafe (platform_laws false) (platform-StartLaws false) declarations powered_off
      (refl, (refl, tt)) declarations-IsWellFormed declarations-NameFits refl refl
      (sets (with_id 300) (7 ∷ [])) (restores (with_key (codes "no")) ∷ clears_all ∷ [])

device : Works (platform_laws true) 1000 862 (λ log. log) declarations
unfolding platform_laws
device = record {
  proper = (refl, (refl, tt));
  well_formed = declarations-IsWellFormed;
  names = declarations-NameFits;
  room = refl;
  survives = λ name log. refl;
  starts = λ log. refl;
  saves = λ name bs log. refl;
}

powered_off-Holds : All (Holds (platform_laws true) powered_off.subsys) (map declared declarations)
unfolding platform_laws bytes_eq
powered_off-Holds = (
  record {
    value_fits = omega arith;
    default_fits = tt;
    value_filled = λ e. cc;
    default_filled = λ e. cc;
  },
  (
    record {
      value_fits = tt;
      default_fits = omega arith;
      value_filled = λ e. cc;
      default_filled = λ e. cc;
    },
    tt,
  ),
)

abbrev two_sessions : List (List Request)
two_sessions =
    (request_set (codes "name") 3 (4 ∷ 5 ∷ []) ∷ request_set_default (codes "name") 8 [] ∷ [])
    ∷ (request_set (codes "level") 6 [] ∷ request_clear (codes "name") ∷ [])
    ∷ []

sessions-Leaves_example :
    Leaves
      (platform_laws true)
      (platform-LoadLaws true)
      (platform-StartLaws true)
      1000
      862
      (λ log. log)
      declarations
      device
      (sessions (platform true) 1000 (λ log. log) declarations two_sessions powered_off)
      (serve_sessions false two_sessions (
        table
          (platform_laws true)
          (platform-LoadLaws true)
          (platform-StartLaws true)
          1000
          862
          (λ log. log)
          declarations
          device
          powered_off))
sessions-Leaves_example =
    sessions-Leaves (platform_laws true) (platform-LoadLaws true) (platform-StartLaws true) 1000 862
      (λ log. log) declarations device two_sessions powered_off powered_off-Holds
