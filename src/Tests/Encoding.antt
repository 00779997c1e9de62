-- ===== src/Tests/Encoding.antt =====
-- The program samples/binary_encoding/src/main.c, run on a concrete platform, and the theorem about
-- what it prints at a concrete setting.
use irnas_usersettings_lib.Base.{
  ℕ, ◌≡◌, refl, arith, replicate, length, length-replicate, Outcome, Option, none, some, get_elem?,
  ◌++◌, [], ◌∷◌, Bytes, bytes_eq, done, fault, true,
}
use irnas_usersettings_lib.Platform.{codes}
use irnas_usersettings_lib.SettingsList.{
  get_by_id, get_by_key, prv_type_to_size, prv_user_settings_list_add,
}
use irnas_usersettings_lib.SettingsList.Lookup.{IsWellFormed}
use irnas_usersettings_lib.Settings.Init.{init, load, add, add_sized}
use irnas_usersettings_lib.Settings.Handlers.{h_set}
use irnas_usersettings_lib.Settings.Change.{
  set_default_with_id, set_with_id, prv_user_settings_set, prv_user_settings_set_default,
  set_and_save, prv_set_changed_recently_flag,
}
use irnas_usersettings_lib.Protocol.Binary.Encode.{
  encode, encode_full, prv_encode_required_bytes_full,
}
use irnas_usersettings_lib.Protocol.Binary.Wire.{wire, wire_full}
use irnas_usersettings_lib.Samples.Encoding.{EncodingState, encoding_main, encode_from}
use irnas_usersettings_lib.Samples.Encoding.Printing.{encode_from-encodings}
use irnas_usersettings_lib.Tests.{Log, platform, name_setting, name_setting-IsSound, two_settings}
use irnas_usersettings_lib.Tests.Startup.{powered_off}

abbrev encoding_session : EncodingState Log ℕ
encoding_session = record { library = powered_off; buffer = replicate 256 0; printouts = [] }

-- The short encoding of the setting "number", and the full one of "text".
abbrev outcome : Outcome (ℕ × EncodingState Log ℕ) → Option (ℕ × ℕ × Option Bytes × Option Bytes)
outcome (done (r, d)) =
    some (r, length d.printouts, get_elem? d.printouts 2, get_elem? d.printouts 19)
outcome (fault e) = none

encoding_main_runs :
    outcome (encoding_main (platform true) encoding_session)
    ≡ some (
      0,
      22,
      some (2 ∷ 0 ∷ codes "number" ++ 0 ∷ 1 ∷ 1 ∷ 69 ∷ []),
      some (
          10 ∷ 0 ∷ codes "text"
          ++ 0 ∷ 9 ∷ 6 ∷ codes "apple"
          ++ 0 ∷ 7 ∷ codes "banana"
          ++ 0 ∷ 10 ∷ []),
    )
unfolding encoding_main init load add add_sized set_default_with_id set_with_id get_by_id get_by_key
    bytes_eq prv_user_settings_set prv_user_settings_set_default set_and_save h_set
    prv_set_changed_recently_flag encode encode_full prv_type_to_size prv_user_settings_list_add
    prv_encode_required_bytes_full
encoding_main_runs = refl

name-IsWellFormed : IsWellFormed (name_setting ∷ [])
name-IsWellFormed = record {
  distinct_ids = (tt, tt);
  distinct_keys = (tt, tt);
  sound = (name_setting-IsSound, tt);
}

abbrev one_setting : EncodingState Log ℕ
one_setting = record encoding_session {
  library = record two_settings { settings = name_setting ∷ [] };
}

encode_from-encodings_example :
    (buffer : Bytes) × (length buffer ≡ 256)
    × (encode_from 1 1 one_setting
        ≡ done (
          tt,
          record one_setting {
            buffer = buffer;
            printouts = wire name_setting ∷ wire_full name_setting ∷ [];
          },
        ))
encode_from-encodings_example =
    encode_from-encodings (name_setting ∷ []) 0 one_setting name-IsWellFormed refl (refl, tt)
      ((name_setting-IsSound, omega arith), tt) ((name_setting-IsSound, omega arith), tt)
      (length-replicate {A = ℕ} 256 0)
