-- ===== src/Protocol/Binary/Overruns.antt =====
-- Requests on which user_settings_protocol_binary_decode_command of
-- library/protocol/binary/user_settings_protocol_binary.c leaves its buffers.
use irnas_usersettings_lib.Base.{
  M, ◌>>◌, pure, bind_fault, ℕ, ◌+◌, ◌-◌, ◌*◌, ◌/◌, ◌%◌, ◌<◌, ◌≡◌, ◌∙◌, Bool, true, false, List,
  ◌∷◌, arith, length, Bytes, ltb, ◌==◌, ok, fault, out_of_bounds, inl, inr, ◌⊎◌,
}
use irnas_usersettings_lib.Protocol.Command.{
  Command, uspc_set, uspc_set_default, uspc_list_some, uspc_list_some_full, command_code,
  value_size,
}
use irnas_usersettings_lib.Protocol.Binary.Decode.{
  decode_data, decode_ids, decode_case, decode_command, copy_value, size_mod,
}
use irnas_usersettings_lib.Base.{Result}
use irnas_usersettings_lib.Protocol.Binary.Requests.{
  set, some_ids, request_type, ids_bytes, request_bytes, decode-type, length-ids_bytes,
}

copy_value_past :
    (buffer : Bytes) (i n : ℕ) (c : Command)
    → (length buffer < i + n) ⊎ (value_size < n)
    → copy_value buffer i n c ≡ fault out_of_bounds
copy_value_past buffer i n c (inl h) = ground arith
copy_value_past buffer i n c (inr h) = ground arith

copy_value_fault :
    (buffer : Bytes) (i n : ℕ) (r : M Command (Result ℕ)) (c : Command)
    → (length buffer < i + n) ⊎ (value_size < n)
    → (copy_value buffer i n >> r) c ≡ fault out_of_bounds
copy_value_fault buffer i n r c h =
    bind_fault (copy_value buffer i n) c (λ _. r) (copy_value_past buffer i n c h)

data_past_buffer :
    (b id n : ℕ) (bs : Bytes) (c : Command)
    → 0 < length bs
    → length bs < n
    → decode_data (b ∷ id % 256 ∷ id / 256 ∷ n ∷ bs) (4 + length bs) c ≡ fault out_of_bounds
unfolding decode_data
data_past_buffer b id n bs c some_data short =
    let enough : ltb (4 + length bs) 5 ≡ false = ground arith in
    simp enough (
      copy_value_fault (b ∷ id % 256 ∷ id / 256 ∷ n ∷ bs) 4 n (pure (ok (4 + n)))
        (record c { id = id % 256 + 256 * (id / 256); value_len = n }) (inl (omega arith)))

ids_past_value :
    (b : ℕ) (ids : List ℕ) (c : Command)
    → 128 < length ids
    → length ids < 256
    → decode_ids (b ∷ length ids ∷ ids_bytes ids) (2 + length (ids_bytes ids)) c
      ≡ fault out_of_bounds
unfolding decode_ids
ids_past_value b ids c h fits =
    let len : (2 + length (ids_bytes ids) + size_mod - 2) % size_mod ≡ 2 * length ids =
      omega (arith, length-ids_bytes ids) in
    let same : (2 * length ids / 2 == length ids) ≡ true = ground arith in
    simp (len, same)
      (copy_value_fault (b ∷ length ids ∷ ids_bytes ids) 2 (2 * length ids)
        (pure (ok (2 + length ids * 2 % 256))) (record c { value_len = length ids * 2 % 256 })
        (inr (omega arith)))

-- A command to set a value or a default, received with at least one data byte but with fewer than
-- its length byte says, is decoded by a read past the buffer.
pub decode_past_buffer :
    (default : Bool) (id n : ℕ) (bs : Bytes) (c : Command)
    → 0 < length bs
    → length bs < n
    → decode_command
        (command_code (request_type (set default id bs)) ∷ id % 256 ∷ id / 256 ∷ n ∷ bs)
        (4 + length bs)
        c
      ≡ fault out_of_bounds
unfolding decode_case
decode_past_buffer true id n bs c some_data short =
    decode-type uspc_set_default (4 + length bs) _ c (omega arith)
    ∙ data_past_buffer 6 id n bs _ some_data short
decode_past_buffer false id n bs c some_data short =
    decode-type uspc_set (4 + length bs) _ c (omega arith)
    ∙ data_past_buffer 5 id n bs _ some_data short

-- 129 IDs or more are written past the 256 bytes for them.
pub decode_past_value :
    (full : Bool) (ids : List ℕ) (c : Command)
    → 128 < length ids
    → length ids < 256
    → decode_command (request_bytes (some_ids full ids)) (2 + length (ids_bytes ids)) c
      ≡ fault out_of_bounds
unfolding decode_case decode_ids
decode_past_value true ids c h fits =
    decode-type uspc_list_some_full (2 + length (ids_bytes ids)) _ c (omega arith)
    ∙ ids_past_value 9 ids _ h fits
decode_past_value false ids c h fits =
    decode-type uspc_list_some (2 + length (ids_bytes ids)) _ c (omega arith)
    ∙ ids_past_value 8 ids _ h fits
