-- ===== src/Protocol/Binary/Encode.antt =====
-- user_settings_protocol_binary_encode and user_settings_protocol_binary_encode_full of
-- library/protocol/binary/user_settings_protocol_binary.c.
use irnas_usersettings_lib.Base.{
  ℕ, ◌+◌, ◌/◌, ◌%◌, [], ◌∷◌, ◌++◌, length, take, Bytes, ltb, if◌then◌else◌, Result, ok, err, enomem,
  done, fault, out_of_bounds, M, ◌>>=◌, ◌>>◌, pure, stop,
}
use irnas_usersettings_lib.Setting.{UserSetting, type_code}

-- A buffer that is written from its start: the bytes before the index `i`, and the room behind it.
pub record Writer : Type 0 where
  pub written : Bytes
  pub space : Bytes

-- buffer[i++] = b
unfoldable pub put : ℕ → M Writer (Unit {0})
put b w = elim w.space [
  | [] ↦ fault out_of_bounds
  | old ∷ space ↦ done (tt, record { written = w.written ++ b ∷ []; space = space })
]

-- memcpy(&buffer[i], bs, n); i += n
unfoldable pub put_all : Bytes → M Writer (Unit {0})
unfolding put
put_all [] = pure tt
put_all (b ∷ bs) = do put b; put_all bs

-- The first `n` bytes of a block.
abbrev pub read_block : ℕ → Bytes → M Writer Bytes
read_block n block w = if ltb (length block) n then fault out_of_bounds else done (take n block, w)

unfoldable pub prv_encode_required_bytes : UserSetting → ℕ
prv_encode_required_bytes us =
    let base = 2 + length us.key + 1 + 1 + 1 in if us.is_set then base + us.value_len else base

unfoldable pub prv_encode_required_bytes_full : UserSetting → ℕ
unfolding prv_encode_required_bytes
prv_encode_required_bytes_full us =
    let base = prv_encode_required_bytes us + 1 + 1 in
    if us.default_is_set then base + us.default_value_len else base

-- A length byte, the low byte of the length, and the bytes.
abbrev pub put_sized : ℕ → Bytes → M Writer (Unit {0})
put_sized n block = do put (n % 256); bs ← read_block n block; put_all bs

-- The index is the number of bytes written.
abbrev pub index : M Writer (Result ℕ)
index w = done (ok (length w.written), w)

unfoldable pub encode : UserSetting → ℕ → M Writer (Result ℕ)
unfolding put_all prv_encode_required_bytes
encode us len = if ltb len (prv_encode_required_bytes us) then pure (err enomem) else do
  put (us.id % 256)
  put (us.id / 256 % 256)
  put_all (us.key ++ 0 ∷ [])
  put (type_code us.setting_type)
  if us.is_set then put_sized us.value_len us.value else put 0
  index

-- What is written behind the short form; without one there is no index to go on from.
unfoldable pub encode_rest : UserSetting → Result ℕ → M Writer (Result ℕ)
encode_rest us (err e) = stop out_of_bounds
encode_rest us (ok i) = do
  if us.default_is_set then put_sized us.default_value_len us.default_value else put 0
  put (us.max_size % 256)
  index

unfoldable pub encode_full : UserSetting → ℕ → M Writer (Result ℕ)
unfolding encode_rest
encode_full us len =
    if ltb len (prv_encode_required_bytes_full us)
    then pure (err enomem)
    else do i ← encode us len; encode_rest us i
