-- ===== src/Tests/Commands.antt =====
-- The theorems at concrete settings: the shell, and freeing the list.
use irnas_usersettings_lib.Base.{
  ℕ, suc, ◌+◌, ◌-◌, ◌*◌, ◌≡◌, refl, arith, true, none, some, [], ◌∷◌, map, take, bytes_eq, Bytes,
  ok, err, enoent, Status, Outcome, done, fault, bad_pointer,
}
use irnas_usersettings_lib.Platform.{codes}
use irnas_usersettings_lib.Memory.{pos}
use irnas_usersettings_lib.SettingsList.{get_by_key}
use irnas_usersettings_lib.SettingsList.Free.{
  Freeing, setting_of, default_data_of, data_of, free_setting, next_node, list_free,
  list_free_dangles,
}
use irnas_usersettings_lib.Settings.Changed.{changed_only}
use irnas_usersettings_lib.Settings.Handlers.{h_set}
use irnas_usersettings_lib.Settings.Change.{
  set_with_key, prv_user_settings_set, set_and_save, prv_set_changed_recently_flag,
}
use irnas_usersettings_lib.Settings.Query.{get_with_key}
use irnas_usersettings_lib.Hex.{hex_encode, hex_decode}
use irnas_usersettings_lib.Shell.{
  NumberParser, key_not_found, Session, cmd_list, cmd_list_changed, cmd_set, with_setting,
  shell_bytes, prv_set_helper,
}
use irnas_usersettings_lib.Shell.Printing.{line_of, IsPrintable, cmd_list_lem}
use irnas_usersettings_lib.Shell.Commands.{get-cmd_set_hex}
use irnas_usersettings_lib.Tests.{
  Log, platform, platform_laws, name_setting, level_setting, two_settings, two_settings-IsReady,
}
use irnas_usersettings_lib.Tests.Witnesses.{new_value, after_set}

abbrev decimal : ℕ → Bytes → ℕ
decimal n [] = n
decimal n (c ∷ cs) = decimal (10 * n + (c - b'0')) cs

-- Digits only.
abbrev digits : NumberParser
digits = record { strtol = λ s. pos (decimal 0 s); strtoll = λ s. pos (decimal 0 s) }

abbrev session : Session Log ℕ
session = record { library = two_settings; lines = [] }

name_setting-IsPrintable : IsPrintable name_setting
name_setting-IsPrintable = record { value = λ h. omega arith; default = λ h. omega arith }

level_setting-IsPrintable : IsPrintable level_setting
level_setting-IsPrintable = record { value = λ h. omega arith; default = λ h. omega arith }

cmd_list_lem_example :
    (cmd_list session ≡ done (ok tt, record session { lines = map line_of two_settings.settings }))
    × (cmd_list_changed session
        ≡ done (ok tt, record session { lines = map line_of (changed_only two_settings.settings) }))
cmd_list_lem_example =
    cmd_list_lem session (name_setting-IsPrintable, (level_setting-IsPrintable, tt))

nobody : get_by_key (codes "nobody") two_settings.settings ≡ none
unfolding get_by_key bytes_eq
nobody = refl

abbrev refused : Outcome (Status × Session Log ℕ)
refused = done (err enoent, record session { lines = key_not_found (codes "nobody") ∷ [] })

name_at : get_by_key (codes "name") two_settings.settings ≡ some 0
unfolding get_by_key bytes_eq
name_at = refl

is_hex : codes "030405" ≡ hex_encode new_value
unfolding hex_encode
is_hex = refl

abbrev after_session : Session Log ℕ
after_session = record { library = after_set; lines = [] }

set_name :
    cmd_set (platform true) digits (codes "name") (codes "030405") session
    ≡ done (ok tt, after_session)
unfolding cmd_set with_setting prv_set_helper shell_bytes hex_decode set_with_key get_by_key
    bytes_eq prv_user_settings_set set_and_save h_set prv_set_changed_recently_flag
set_name = refl

get-cmd_set_hex_example :
    (block : Bytes) × (len : ℕ) × (get_with_key (codes "name") after_set
      ≡ done (some (block, len), after_set))
    × (take len block ≡ new_value)
get-cmd_set_hex_example =
    get-cmd_set_hex (platform_laws true) digits (codes "name") (codes "030405") 0 name_setting
      session (two_settings-IsReady true) name_at refl 3 (4 ∷ 5 ∷ []) after_session refl
      (omega arith, (omega arith, (omega arith, tt))) (omega arith) is_hex set_name

list_free_dangles_example :
    (list_free (λ b. suc) (record two_settings { settings = [] })
      ≡ done (tt, record two_settings { settings = [] }))
    × ((m : Freeing Log ℕ) × (free_setting
            (λ b. suc)
            0
            (record { library = two_settings; freed = [] })
          ≡ done (tt, m))
        × (m.freed ≡ setting_of 0 ∷ default_data_of 0 ∷ data_of 0 ∷ [])
        × (next_node 0 m ≡ fault bad_pointer))
    × (list_free (λ b. suc) two_settings ≡ fault bad_pointer)
list_free_dangles_example =
    list_free_dangles (λ b. suc) two_settings name_setting (level_setting ∷ [])
