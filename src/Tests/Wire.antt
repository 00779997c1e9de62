-- ===== src/Tests/Wire.antt =====
-- The theorems at concrete settings: the binary protocol and its executor.
use irnas_usersettings_lib.Base.{
  ℕ, zero, suc, ◌+◌, ◌≡◌, refl, arith, true, false, some, List, [], ◌∷◌, ◌++◌, replicate, length,
  Bytes, ok, err, eio, done, fault, out_of_bounds, Result,
}
use irnas_usersettings_lib.Setting.{type_u8, type_code}
use irnas_usersettings_lib.Platform.{codes}
use irnas_usersettings_lib.Protocol.Command.{zero_command}
use irnas_usersettings_lib.Protocol.Binary.Decode.{decode_command}
use irnas_usersettings_lib.Protocol.Binary.Encode.{Writer, encode}
use irnas_usersettings_lib.Protocol.Binary.Wire.{wire_full, get_response, encode-get_response}
use irnas_usersettings_lib.Protocol.Binary.Response.{read_response, read_response-encode}
use irnas_usersettings_lib.Protocol.Binary.Requests.{some_ids, ids_bytes, request_bytes}
use irnas_usersettings_lib.Protocol.Binary.Overruns.{decode_past_buffer, decode_past_value}
use irnas_usersettings_lib.Protocol.Executor.{
  Exec, binary_executor, prv_exec_list_common, parse_and_execute,
}
use irnas_usersettings_lib.Protocol.Executor.Responses.{encoder, Responds}
use irnas_usersettings_lib.Protocol.Executor.Listing.{write_all, list-write_all}
use irnas_usersettings_lib.Protocol.Executor.Requests.{serve, parse_and_execute-serve}
use irnas_usersettings_lib.BtUss.{BtStack, BtState}
use irnas_usersettings_lib.Tests.{
  Log, platform, name_setting, level_setting, two_settings, name_setting-IsSound,
  level_setting-IsSound,
}

-- A transport with room for a number of responses; it keeps what was written, newest first.
abbrev Sent : Type 0
Sent = ℕ × List Bytes

abbrev transmit : Bytes → Sent → Result ℕ × Sent
transmit bs (zero, sent) = (err eio, (0, sent))
transmit bs (suc n, sent) = (ok n, (n, bs ∷ sent))

abbrev start : Exec Log ℕ Sent
start = record { library = two_settings; resp_buffer = replicate 32 0; transport = (1, []) }

encode-get_response_example :
    encode name_setting 32 (record { written = []; space = replicate 32 0 })
    ≡ done (ok 11, record { written = get_response name_setting; space = replicate 21 0 })
encode-get_response_example =
    encode-get_response name_setting name_setting-IsSound 32 (replicate 32 0) (omega arith)
      (omega arith)

read_response-encode_example :
    (w : Writer) × (encode level_setting 20 (record { written = []; space = replicate 32 0 })
      ≡ done (ok (length w.written), w))
    × (read_response (w.written ++ 1 ∷ [])
        ≡ some (
          record { id = 300; key = codes "level"; type_byte = type_code type_u8; value = 9 ∷ [] },
          1 ∷ [],
        ))
read_response-encode_example =
    read_response-encode level_setting 20 (replicate 32 0) (1 ∷ []) level_setting-IsSound
      (
        λ e. omega arith,
        (λ e. omega arith, (λ e. omega arith, (λ e. omega arith, (λ e. omega arith, tt)))),
      )
      (omega arith) (omega arith) (omega arith)

decode_past_buffer_example :
    decode_command (5 ∷ 44 ∷ 1 ∷ 200 ∷ 7 ∷ []) 5 zero_command ≡ fault out_of_bounds
decode_past_buffer_example =
    decode_past_buffer false 300 200 (7 ∷ []) zero_command (omega arith) (omega arith)

abbrev many : List ℕ
many = replicate 129 1

decode_past_value_example :
    decode_command (request_bytes (some_ids false many)) (2 + length (ids_bytes many)) zero_command
    ≡ fault out_of_bounds
decode_past_value_example = decode_past_value false many zero_command (omega arith) (omega arith)

list-write_all_example :
    Responds 32
      (prv_exec_list_common (binary_executor transmit 32) (encoder true) start)
      start
      (err eio, (0, wire_full name_setting ∷ []))
unfolding write_all
list-write_all_example =
    list-write_all transmit 32 true start
      ((name_setting-IsSound, omega arith), ((level_setting-IsSound, omega arith), tt)) refl

parse_and_execute-serve_example :
    parse_and_execute
      (platform true)
      (binary_executor transmit 32)
      (9 ∷ 2 ∷ 44 ∷ 1 ∷ 1 ∷ 0 ∷ [])
      6
      start
    ≡ serve (platform true) (binary_executor transmit 32) (some_ids true (300 ∷ 1 ∷ [])) start
parse_and_execute-serve_example =
    parse_and_execute-serve (platform true) transmit 32 (some_ids true (300 ∷ 1 ∷ [])) start
      (omega arith)

-- A stack on which everyone is subscribed; it keeps what was notified.
abbrev pub stack : BtStack ℕ (List Bytes)
stack = record {
  bt_conn_ref = λ conn radio. (some conn, radio);
  bt_conn_unref = λ conn radio. radio;
  bt_gatt_is_subscribed = λ conn radio. true;
  bt_gatt_notify = λ conn bs radio. (ok tt, bs ∷ radio);
}

abbrev pub client : Exec Log ℕ (BtState ℕ (List Bytes))
client = record {
  library = two_settings;
  resp_buffer = replicate 512 0;
  transport = record { prv_bt_conn = some 3; radio = [] };
}
