-- ===== src/Tests.antt =====
-- Test data: a settings subsystem with a log of what was saved, a heap that counts bytes, and a
-- library with two settings.
pub mod Witnesses
pub mod Library
pub mod Wire
pub mod Restart
pub mod Table
pub mod Import
pub mod Commands
pub mod Startup
pub mod Samples
pub mod Encoding
use irnas_usersettings_lib.Base.{
  ℕ, ◌-◌, ◌≤◌, ◌≡◌, refl, ap, arith, Bool, true, false, Option, none, some, List, [], ◌∷◌, ◌++◌,
  length, Bytes, bytes_eq, ltb, ◌==◌, if◌then◌else◌, Status, ok, err, eio, enoent,
}
use irnas_usersettings_lib.Setting.{UserSetting, type_bytes, type_u8, IsSound}
use irnas_usersettings_lib.Platform.{
  codes, Platform, PlatformLaws, Handler, default_sh, value_sh, changed_sh, full_name, Dispatch,
  not_found, calls, read_bytes, saved,
}
use irnas_usersettings_lib.State.{State}
use irnas_usersettings_lib.SettingsList.Lookup.{IsWellFormed}
use irnas_usersettings_lib.Settings.Saving.{IsReady}
use irnas_usersettings_lib.Settings.Restart.{LoadLaws}
use irnas_usersettings_lib.TestStorage.{
  Log, strip, lookup, load_subtree_of, load_subtree_of-IsBounded, load_subtree_of-prefix,
  pairs_under, pairs_under-Distinct, pairs_under-lookup,
}

abbrev find_handler : Bytes → Option (Handler × Bytes)
find_handler name = elim (strip (full_name default_sh []) name) [
  | some key ↦ some (default_sh, key)
  | none ↦ elim (strip (full_name changed_sh []) name) [
    | some key ↦ some (changed_sh, key)
    | none ↦ elim (strip (full_name value_sh []) name) [
      | some key ↦ some (value_sh, key)
      | none ↦ none
    ]
  ]
]

abbrev dispatch : Option (Handler × Bytes) → Bytes → Dispatch
dispatch none bs = not_found enoent
dispatch (some (h, key)) bs = calls h (record { key = key; len = length bs; read = read_bytes bs })

abbrev save : Bool → Bytes → Bytes → Log → Status × Log
save true name bs log = (ok tt, (name, bs) ∷ log)
save false name bs log = (err eio, log)

-- `works` is false for a storage that refuses every write.
abbrev pub platform : Bool → Platform Log ℕ
platform works = record {
  settings_subsys_init = λ log. (ok tt, log);
  settings_register = λ h log. (ok tt, log);
  settings_load_subtree = load_subtree_of;
  settings_runtime_set = λ name bs log. dispatch (find_handler name) bs;
  settings_save_one = save works;
  k_heap_aligned_alloc = λ n free. if ltb free n then none else some (free - n);
  sizeof_user_setting = 64;
  settings_max_name_len = 64;
  default_overwrite = false;
}

find_handler-full_name :
    (h : Handler) (key : Bytes) → find_handler (full_name h key) ≡ some (h, key)
find_handler-full_name default_sh key = refl
find_handler-full_name value_sh key = refl
find_handler-full_name changed_sh key = refl

save-registered :
    (works : Bool) (name bs other : Bytes) (log : Log)
    → (save works name bs log).0 ≡ ok tt
    → lookup other (save works name bs log).1
      ≡ (if bytes_eq name other then saved bs else lookup other log)
save-registered true name bs other log h = refl
save-registered false name bs other log h = cc

pub platform_laws : (works : Bool) → PlatformLaws (platform works)
platform_laws works = record {
  registered = λ h log. true;
  stored = lookup;
  runtime_set_calls = λ h key bs log e. ap (λ o. dispatch o bs) (find_handler-full_name h key);
  save_registered = λ h name bs log. refl;
  save_stored = save-registered works;
  load_bounded = load_subtree_of-IsBounded;
}

pub platform-LoadLaws : (works : Bool) → LoadLaws (platform_laws works)
unfolding platform_laws
platform-LoadLaws works = record {
  pairs = pairs_under;
  pairs_distinct = pairs_under-Distinct;
  pairs_stored = pairs_under-lookup;
  load_calls = λ h log e. load_subtree_of-prefix h log;
}

-- A setting of 4 bytes with the value 1 2 and the default 7.
abbrev pub name_setting : UserSetting
name_setting = record {
  id = 1;
  key = codes "name";
  setting_type = type_bytes;
  max_size = 4;
  value = 1 ∷ 2 ∷ 0 ∷ 0 ∷ [];
  value_len = 2;
  is_set = true;
  default_value = 7 ∷ 0 ∷ 0 ∷ 0 ∷ [];
  default_value_len = 1;
  default_is_set = true;
  has_changed_recently = false;
  on_change_cb = some 5;
  validate_cb = some λ id key bs. ltb 0 (length bs);
}

-- A byte with a value and no default.
abbrev pub level_setting : UserSetting
level_setting = record {
  id = 300;
  key = codes "level";
  setting_type = type_u8;
  max_size = 1;
  value = 9 ∷ [];
  value_len = 1;
  is_set = true;
  default_value = 0 ∷ [];
  default_value_len = 0;
  default_is_set = false;
  has_changed_recently = false;
  on_change_cb = none;
  validate_cb = none;
}

abbrev pub two_settings : State Log ℕ
two_settings = record {
  settings = name_setting ∷ level_setting ∷ [];
  heap = 1000;
  subsys = [];
  is_inited = true;
  is_loaded = true;
  global_on_change_cb = some 1;
  on_changes = [];
}

pub name_setting-IsSound : IsSound name_setting
name_setting-IsSound = record {
  id_fits = omega arith;
  block = refl;
  default_block = refl;
  fits = omega arith;
  default_fits = omega arith;
  unset_is_empty = λ h. cc;
  no_default_is_empty = λ h. cc;
}

pub level_setting-IsSound : IsSound level_setting
level_setting-IsSound = record {
  id_fits = omega arith;
  block = refl;
  default_block = refl;
  fits = omega arith;
  default_fits = omega arith;
  unset_is_empty = λ h. cc;
  no_default_is_empty = λ h. refl;
}

pub two_settings-IsWellFormed : IsWellFormed two_settings.settings
two_settings-IsWellFormed = record {
  distinct_ids = ((λ e. omega arith, tt), (tt, tt));
  distinct_keys = ((λ e. ground arith, tt), (tt, tt));
  sound = (name_setting-IsSound, (level_setting-IsSound, tt));
}

pub two_settings-IsReady : (works : Bool) → IsReady (platform_laws works) two_settings
unfolding platform_laws
two_settings-IsReady works = record {
  inited = refl;
  loaded = refl;
  well_formed = two_settings-IsWellFormed;
  registered = λ h. refl;
  names = (name_fits, (level_fits, tt));
}
  where
    name_fits : (h : Handler) → length (full_name h (codes "name")) ≤ 64
    name_fits default_sh = omega arith
    name_fits value_sh = omega arith
    name_fits changed_sh = omega arith

    level_fits : (h : Handler) → length (full_name h (codes "level")) ≤ 64
    level_fits default_sh = omega arith
    level_fits value_sh = omega arith
    level_fits changed_sh = omega arith
