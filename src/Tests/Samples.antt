-- ===== src/Tests/Samples.antt =====
-- The theorems at concrete settings: the programs in samples/ and their callbacks, and a Bluetooth
-- client that sets a value.
use irnas_usersettings_lib.Base.{
  ℕ, Bool, ◌+◌, ◌-◌, ◌≡◌, ◌↔◌, refl, arith, false, true, none, some, List, [], ◌∷◌, map,
  length-replicate, get_elem?, Bytes, ok, done, fault, bad_pointer, bytes_eq, ◌>>=◌,
}
use irnas_usersettings_lib.Memory.{pos, negsuc}
use irnas_usersettings_lib.Setting.{UserSetting, type_i8}
use irnas_usersettings_lib.Platform.{codes}
use irnas_usersettings_lib.State.{State}
use irnas_usersettings_lib.SettingsList.{new_setting}
use irnas_usersettings_lib.Settings.Restart.{from_storage}
use irnas_usersettings_lib.Startup.{declared}
use irnas_usersettings_lib.Startup.Ready.{at_start}
use irnas_usersettings_lib.ValidationHelpers.{validate_cb_range, int8, uint32}
use irnas_usersettings_lib.ValidationHelpers.Verdicts.{
  IsAtMost, bytes_of, validate_cb_range_lem, range_over_read,
}
use irnas_usersettings_lib.Samples.{basic_main}
use irnas_usersettings_lib.Samples.Settings.{t1_t11, t1_t11-IsWellFormed}
use irnas_usersettings_lib.Samples.Basic.{basic_main_lem}
use irnas_usersettings_lib.Samples.Validation.{validation_main}
use irnas_usersettings_lib.Samples.Validation.Run.{checked_settings, validation_main_lem}
use irnas_usersettings_lib.Samples.Callbacks.Run.{at_end, callbacks_main_lem}
use irnas_usersettings_lib.Samples.Callbacks.Registered.{validate_t2_t9}
use irnas_usersettings_lib.Samples.Callbacks.{callbacks_main, prv_validate_t2_t9}
use irnas_usersettings_lib.Samples.Callbacks.Verdicts.{prv_validate_t2_t9_lem}
use irnas_usersettings_lib.Samples.Bluetooth.{App, connected, disconnected}
use irnas_usersettings_lib.Samples.Bluetooth.Connections.{
  ConnLaws, connected-disconnected, disconnected_twice,
}
use irnas_usersettings_lib.BtUss.{BtStack, BtState, accepted, prv_on_receive_write}
use irnas_usersettings_lib.BtUss.Writes.{
  Answers, receive_set, set_to, prv_on_receive_write-Answers, set_then_get,
}
use irnas_usersettings_lib.Protocol.Binary.Wire.{wire}
use irnas_usersettings_lib.Tests.{
  Log, platform, platform_laws, platform-LoadLaws, name_setting, two_settings, two_settings-IsReady,
}
use irnas_usersettings_lib.Tests.Wire.{stack, client}
use irnas_usersettings_lib.SettingsList.{get_by_id}
use irnas_usersettings_lib.Settings.Values.{same_value}
use irnas_usersettings_lib.Protocol.Executor.{Exec}
use irnas_usersettings_lib.Protocol.Binary.Requests.{one, request_bytes}
use irnas_usersettings_lib.Tests.Startup.{powered_off, platform-StartLaws}

basic_main_lem_example :
    basic_main (platform true) powered_off
    ≡ done (
      0,
      at_start
          (platform_laws true)
          (platform-LoadLaws true)
          (platform-StartLaws true)
          t1_t11
          powered_off
          198,
    )
basic_main_lem_example =
    basic_main_lem (platform_laws true) (platform-LoadLaws true) (platform-StartLaws true)
      powered_off refl refl

validation_main_lem_example :
    validation_main (λ i. 0) (platform true) powered_off
    ≡ done (
      0,
      record powered_off {
        settings =
            map (from_storage (platform_laws true) powered_off.subsys) (checked_settings (λ i. 0));
        heap = 198;
        is_inited = true;
        is_loaded = true;
      },
    )
validation_main_lem_example =
    validation_main_lem (platform_laws true) (platform-LoadLaws true) (platform-StartLaws true)
      (λ i. 0) powered_off 198 refl refl refl refl

-- The limits -69 and -60, and the number -61.
validate_cb_range_lem_example :
    (validate_cb_range
        (λ i. 0)
        int8
        (negsuc 68)
        (negsuc 59)
        6
        (codes "t6")
        (bytes_of int8 (negsuc 60))
      ≡ true)
    ↔ (IsAtMost (negsuc 68) (negsuc 60) × IsAtMost (negsuc 60) (negsuc 59))
validate_cb_range_lem_example =
    validate_cb_range_lem (λ i. 0) int8 (negsuc 68) (negsuc 59) (negsuc 60) 6 (codes "t6") refl refl
      refl

range_over_read_example :
    (validate_cb_range (λ _. 0) uint32 (pos 40) (pos 49) 4 (codes "t4") (45 ∷ []) ≡ true)
    × (validate_cb_range (λ _. 1) uint32 (pos 40) (pos 49) 4 (codes "t4") (45 ∷ []) ≡ false)
range_over_read_example = range_over_read 45 4 (codes "t4") (omega arith) (omega arith)

abbrev loaded : State Log ℕ
loaded = record powered_off { settings = map declared t1_t11; is_inited = true; is_loaded = true }

prv_validate_t2_t9_lem_example :
    (verdict : Bool) × (prv_validate_t2_t9 (λ i. 0) 6 (codes "t6") (65 ∷ []) loaded
      ≡ done (verdict, loaded))
    × ((verdict ≡ true) ↔ (IsAtMost (pos 60) (pos 65) × IsAtMost (pos 65) (pos 69)))
prv_validate_t2_t9_lem_example =
    prv_validate_t2_t9_lem (λ i. 0) loaded 5 (new_setting 6 (codes "t6") type_i8 1) int8 (pos 65)
      (codes "t6") refl t1_t11-IsWellFormed refl (omega arith) refl refl

-- A stack with one connection; it counts the references.
abbrev counting : BtStack (Unit {0}) ℕ
counting = record {
  bt_conn_ref = λ conn n. (some conn, n + 1);
  bt_conn_unref = λ conn n. n - 1;
  bt_gatt_is_subscribed = λ conn n. true;
  bt_gatt_notify = λ conn bs n. (ok tt, n);
}

abbrev counting_laws : ConnLaws counting
counting_laws = record {
  refs = λ conn n. n;
  ref_same = λ conn n h. refl;
  ref_counts = λ conn n h. refl;
  unref_counts = λ conn n h. omega arith;
}

abbrev idle : App (Unit {0}) ℕ
idle = record { uss = record { prv_bt_conn = none; radio = 1 }; prv_current_conn = none }

connected-disconnected_example :
    (s' : App (Unit {0}) ℕ) × ((connected counting tt 0 >>= λ _. disconnected counting tt 19) idle
      ≡ done (tt, s'))
    × (s'.uss.radio ≡ 1)
    × (s'.uss.prv_bt_conn ≡ none)
connected-disconnected_example = connected-disconnected counting_laws tt 19 idle (omega arith)

disconnected_twice_example :
    (connected counting tt 0 >>= λ _. connected counting tt 0 >>= λ _.
    disconnected counting tt 19 >>= λ _. disconnected counting tt 19)
      idle
    ≡ fault bad_pointer
disconnected_twice_example =
    disconnected_twice counting_laws tt tt 19 idle (omega arith) (omega arith)

prv_on_receive_write-Answers_example :
    Answers
      (platform_laws false)
      stack
      client
      (two_settings-IsReady false)
      300
      (7 ∷ [])
      (get_by_id 300 two_settings.settings)
prv_on_receive_write-Answers_example =
    prv_on_receive_write-Answers (platform_laws false) stack client (two_settings-IsReady false) 300
      (7 ∷ []) (omega arith)

differs : same_value name_setting (3 ∷ 4 ∷ []) ≡ false
unfolding bytes_eq
differs = refl

set_then_get_example :
    (e' : Exec Log ℕ (BtState ℕ (List Bytes))) × ((receive_set (platform true) stack 1 (3 ∷ 4 ∷ [])
          >>= λ _. prv_on_receive_write (platform true) stack (request_bytes (one false 1)) 3)
        client
      ≡ done (accepted 3, e'))
    × (e'.transport.radio ≡ wire (set_to (3 ∷ 4 ∷ []) name_setting) ∷ [])
set_then_get_example =
    set_then_get (platform_laws true) stack client (two_settings-IsReady true) 0 name_setting 3 3
      (4 ∷ []) refl (omega arith) (omega arith) differs refl (λ name bs sub. refl)
      (length-replicate {A = ℕ} 512 0) (omega arith) refl refl

-- The library as the program leaves it, where nothing is stored.
abbrev callbacks_end : State Log ℕ
callbacks_end =
    at_end (platform_laws true) (platform-LoadLaws true) (platform-StartLaws true) (λ i. 0)
      powered_off 198

-- The setting of type I8 with ID 6.
abbrev t6 : UserSetting
t6 = record (new_setting 6 (codes "t6") type_i8 1) { validate_cb = some (validate_t2_t9 (λ i. 0)) }

t6_at : get_elem? callbacks_end.settings 5 ≡ some t6
unfolding platform_laws bytes_eq
t6_at = refl

callbacks_main_lem_example :
    (callbacks_main (λ i. 0) (validate_t2_t9 (λ i. 0)) (platform true) powered_off
      ≡ done (0, callbacks_end))
    × (6 ≡ 5 + 1)
    × (prv_validate_t2_t9 (λ i. 0) 6 (codes "t6") (bytes_of int8 (pos 65)) callbacks_end
        ≡ done (validate_t2_t9 (λ i. 0) 6 (codes "t6") (bytes_of int8 (pos 65)), callbacks_end))
    × ((validate_t2_t9 (λ i. 0) 6 (codes "t6") (bytes_of int8 (pos 65)) ≡ true)
        ↔ (IsAtMost (pos 60) (pos 65) × IsAtMost (pos 65) (pos 69)))
callbacks_main_lem_example =
    callbacks_main_lem (platform_laws true) (platform-LoadLaws true) (platform-StartLaws true)
      (λ i. 0) powered_off 198 5 t6 int8 (pos 65) refl refl refl refl (omega arith) (omega arith)
      t6_at refl refl
