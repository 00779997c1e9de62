-- ===== src/Protocol/Binary/Decode.antt =====
-- user_settings_protocol_binary_decode_command of
-- library/protocol/binary/user_settings_protocol_binary.c.
use irnas_usersettings_lib.Base.{
  ℕ, ◌+◌, ◌-◌, ◌*◌, ◌/◌, ◌%◌, ◌^◌, Option, none, some, not, length, take, drop, get_elem?, Bytes,
  ltb, ◌==◌, if◌then◌else◌, Result, ok, err, eproto, enotsup, done, fault, out_of_bounds, M, ◌>>=◌,
  ◌>>◌, pure, update,
}
use irnas_usersettings_lib.Settings.Handlers.{overwrite}
use irnas_usersettings_lib.Protocol.Command.{
  Command, CommandType, uspc_get, uspc_get_full, uspc_list, uspc_list_full, uspc_set,
  uspc_set_default, uspc_restore, uspc_list_some, uspc_list_some_full, command_of, zero_command,
  value_size,
}

-- size_t has 32 bits.
abbrev pub size_mod : ℕ
size_mod = 2 ^ 32

-- buffer[i], where the buffer is the memory that may be read
abbrev pub byte : Bytes → ℕ → M Command ℕ
byte buffer i c = elim (get_elem? buffer i) [ none ↦ fault out_of_bounds | some b ↦ done (b, c) ]

-- *(uint16_t *)&buffer[i], little endian
abbrev pub read_u16 : Bytes → ℕ → M Command ℕ
read_u16 buffer i = do lo ← byte buffer i; hi ← byte buffer (i + 1); pure (lo + 256 * hi)

-- memcpy(command->value, &buffer[i], n)
abbrev pub copy_value : Bytes → ℕ → ℕ → M Command (Unit {0})
copy_value buffer i n c =
    if ltb (length buffer) (i + n)
    then fault out_of_bounds
    else if ltb value_size n
    then fault out_of_bounds
    else done (tt, record c { value = overwrite (take n (drop i buffer)) c.value })

unfoldable pub decode_key : Bytes → ℕ → M Command (Result ℕ)
decode_key buffer len =
    if not (len == 3)
    then pure (err eproto)
    else do id ← read_u16 buffer 1; update (λ c. record c { id = id }); pure (ok 3)

unfoldable pub decode_data : Bytes → ℕ → M Command (Result ℕ)
decode_data buffer len = if ltb len 5 then pure (err eproto) else do
  id ← read_u16 buffer 1
  update (λ c. record c { id = id })
  value_len ← byte buffer 3
  update (λ c. record c { value_len = value_len })
  copy_value buffer 4 value_len
  pure (ok (4 + value_len))

unfoldable pub decode_ids : Bytes → ℕ → M Command (Result ℕ)
decode_ids buffer len = do
  let id_buffer_len = (len + size_mod - 2) % size_mod
  num_ids ← byte buffer 1
  if not (id_buffer_len / 2 == num_ids) then pure (err eproto) else do
    update (λ c. record c { value_len = num_ids * 2 % 256 })
    copy_value buffer 2 id_buffer_len
    pure (ok (2 + num_ids * 2 % 256))

-- The `switch` over the type.
unfoldable pub decode_case : Option CommandType → Bytes → ℕ → M Command (Result ℕ)
unfolding decode_key decode_data decode_ids
decode_case none buffer len = pure (err enotsup)
decode_case (some uspc_list) buffer len = pure (ok 1)
decode_case (some uspc_list_full) buffer len = pure (ok 1)
decode_case (some uspc_restore) buffer len = pure (ok 1)
decode_case (some uspc_get) buffer len = decode_key buffer len
decode_case (some uspc_get_full) buffer len = decode_key buffer len
decode_case (some uspc_set) buffer len = decode_data buffer len
decode_case (some uspc_set_default) buffer len = decode_data buffer len
decode_case (some uspc_list_some) buffer len = decode_ids buffer len
decode_case (some uspc_list_some_full) buffer len = decode_ids buffer len

-- The state is `*command`.
unfoldable pub decode_command : Bytes → ℕ → M Command (Result ℕ)
unfolding decode_case
decode_command buffer len = do
  update (λ c. zero_command)
  if len == 0 then pure (err eproto) else do
    type ← byte buffer 0
    update (λ c. record c { command_type = type })
    decode_case (command_of type) buffer len
