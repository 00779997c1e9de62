-- ===== src/Protocol/Binary/Full.antt =====
-- The full wire format, as user_settings_protocol_binary_encode_full of
-- library/protocol/binary/user_settings_protocol_binary.c writes it.
use irnas_usersettings_lib.Base.{
  Bool-cases, inl, inr, ℕ, ◌+◌, ◌%◌, ◌≤◌, ◌<◌, ◌≡◌, ap, ◌∙◌, true, false, [], ◌∷◌, ◌++◌, arith,
  length, length-append, length-take, length-drop, drop, Bytes, ltb, if◌then◌else◌, ok, err, enomem,
  done, ◌>>=◌, pure, bind_done,
}
use irnas_usersettings_lib.Setting.{UserSetting, IsSound}
use irnas_usersettings_lib.Protocol.Binary.Encode.{
  Writer, index, put, put_all, put_sized, prv_encode_required_bytes_full, encode, encode_rest,
  encode_full,
}
use irnas_usersettings_lib.Protocol.Binary.Wire.{
  sized, wire, wire_full, ◌▹◌, put-▹, ▹-▹, put_sized-▹, put_all_lem, length-wire, encode_lem,
}

module _ (us : UserSetting) (sound : IsSound us) where
  -- What encode_full writes behind the short form.
  abbrev pub rest : Bytes
  rest = sized us.default_is_set us.default_value_len us.default_value ++ us.max_size % 256 ∷ []

  rest-put_all : (i : ℕ) → encode_rest us (ok i) ≡ rest ▹ index
  unfolding encode_rest
  rest-put_all i =
      ap
        (λ k.
          (if us.default_is_set then put_sized us.default_value_len us.default_value else put 0)
          >>= λ _. k)
        (put-▹ (us.max_size % 256) index)
      ∙ put_sized-▹ us.default_is_set us.default_value_len us.default_value _
          (omega (arith, sound.default_block, sound.default_fits))
      ∙ ▹-▹ (sized us.default_is_set us.default_value_len us.default_value) _ index

  length-sized_default :
      length (sized us.default_is_set us.default_value_len us.default_value)
      ≡ (if us.default_is_set then us.default_value_len + 1 else 1)
  length-sized_default = ground (
    arith,
    length-take us.default_value_len us.default_value,
    sound.default_block,
    sound.default_fits,
  )

  length-wire_full : length (wire_full us) ≡ prv_encode_required_bytes_full us
  unfolding prv_encode_required_bytes_full
  length-wire_full = ground (
    arith,
    length-sized_default,
    length-wire us sound,
    length-append (wire us) rest,
    length-append (sized us.default_is_set us.default_value_len us.default_value)
        (us.max_size % 256 ∷ []),
  )

  encode_full_short :
      (len : ℕ) (w : Writer)
      → len < prv_encode_required_bytes_full us
      → encode_full us len w ≡ done (err enomem, w)
  unfolding encode_full
  encode_full_short len w short =
      let less : ltb len (prv_encode_required_bytes_full us) ≡ true = ground arith in
      ap (λ b. (if b then pure (err enomem) else (encode us len >>= encode_rest us)) w) less

  encode_full_step :
      (len : ℕ) (w : Writer)
      → prv_encode_required_bytes_full us ≤ len
      → encode_full us len w ≡ (encode us len >>= encode_rest us) w
  unfolding encode_full
  encode_full_step len w fits =
      let enough : ltb len (prv_encode_required_bytes_full us) ≡ false = ground arith in
      ap (λ b. (if b then pure (err enomem) else (encode us len >>= encode_rest us)) w) enough

  pub encode_full_lem :
      (len : ℕ) (buffer : Bytes)
      → len ≤ length buffer
      → (len < length (wire_full us)
          → encode_full us len (record { written = []; space = buffer })
            ≡ done (err enomem, record { written = []; space = buffer }))
        × (length (wire_full us) ≤ len
            → encode_full us len (record { written = []; space = buffer })
              ≡ done (
                ok (length (wire_full us)),
                record {
                  written = wire_full us;
                  space = drop (length rest) (drop (length (wire us)) buffer);
                },
              ))
  encode_full_lem len buffer room = (
    λ short.
        encode_full_short len (record { written = []; space = buffer })
          (omega (arith, length-wire_full)),
    λ fits.
        let short_fits : length (wire us) ≤ len = omega (arith, length-append (wire us) rest) in
        let rest_fits : length rest ≤ length (drop (length (wire us)) buffer) =
          omega (arith, length-append (wire us) rest, length-drop (length (wire us)) buffer) in
        encode_full_step len (record { written = []; space = buffer })
          (omega (arith, length-wire_full))
        ∙ bind_done (encode us len) (record { written = []; space = buffer }) (encode_rest us)
            ((encode_lem us sound len buffer room).1 short_fits)
        ∙ ap (λ m. m (record { written = wire us; space = drop (length (wire us)) buffer }))
            (rest-put_all (length (wire us)))
        ∙ bind_done (put_all rest)
            (record { written = wire us; space = drop (length (wire us)) buffer }) (λ _. index)
            (put_all_lem rest (wire us) (drop (length (wire us)) buffer) rest_fits),
  )

  -- With a buffer of at least `len` bytes: where `len` is less than the length of the full wire
  -- format, -ENOMEM and nothing is written; otherwise exactly the full wire format is written and
  -- its length is returned. No write misses the buffer.
  pub encode_full-wire_full :
      (len : ℕ) (buffer : Bytes)
      → len ≤ length buffer
      → encode_full us len (record { written = []; space = buffer }) ≡ (
          if ltb len (length (wire_full us))
          then done (err enomem, record { written = []; space = buffer })
          else done (
            ok (length (wire_full us)),
            record {
              written = wire_full us;
              space = drop (length rest) (drop (length (wire us)) buffer);
            },
          ))
  encode_full-wire_full len buffer room = elim (Bool-cases (ltb len (length (wire_full us)))) [
    | inl e ↦ (encode_full_lem len buffer room).0 (ground arith) ∙ rw e
    | inr e ↦ (encode_full_lem len buffer room).1 (ground arith) ∙ rw e
  ]
