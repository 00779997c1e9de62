-- ===== src/Protocol/Binary/Wire.antt =====
-- The wire format of a setting (library/protocol/binary/README.md), and that the encoder of
-- library/protocol/binary/user_settings_protocol_binary.c writes it.
use mathlib.Core.List.{append_assoc, append-nil}
use mathlib.Core.Path.{fun_ext}
use irnas_usersettings_lib.Base.{
  ℕ, ◌+◌, ◌/◌, ◌%◌, ◌≤◌, ◌<◌, ◌≡◌, refl, sym, subst, ap, ◌∙◌, Bool, true, false, [], ◌∷◌, ◌++◌,
  arith, length, length-append, length-take, take, drop, Bytes, ltb, if◌then◌else◌, Result, ok, err,
  enomem, done, fault, out_of_bounds, Bool-cases, inl, inr, M, ◌>>=◌, pure, bind_done,
}
use irnas_usersettings_lib.Setting.{UserSetting, IsSound, type_code}
use irnas_usersettings_lib.Memory.{le_bytes}
use irnas_usersettings_lib.Protocol.Binary.Encode.{
  Writer, index, put, put_all, put_sized, prv_encode_required_bytes, encode,
}

-- VALUE_LEN in one byte and that many bytes, or a zero byte where no value is set.
abbrev value_field : Bool → ℕ → Bytes → Bytes
value_field true n block = n ∷ take n block
value_field false n block = 0 ∷ []

-- The response to GET, field by field as the README lists them: the ID in two bytes, the lower one
-- first, the key and the zero that ends it, the type, and the value.
abbrev pub get_response : UserSetting → Bytes
get_response us =
    le_bytes 2 us.id
    ++ (us.key ++ 0 ∷ [])
    ++ type_code us.setting_type ∷ value_field us.is_set us.value_len us.value

-- The byte that holds a length, and the bytes, or a zero byte.
abbrev pub sized : Bool → ℕ → Bytes → Bytes
sized true n block = n % 256 ∷ take n block
sized false n block = 0 ∷ []

-- What is written in response to GET, also where a length has no room in its byte.
abbrev pub wire : UserSetting → Bytes
wire us =
    us.id % 256 ∷ us.id / 256 % 256 ∷ us.key
    ++ 0 ∷ type_code us.setting_type ∷ sized us.is_set us.value_len us.value

-- The same of GET FULL.
abbrev pub wire_full : UserSetting → Bytes
wire_full us =
    wire us
    ++ (sized us.default_is_set us.default_value_len us.default_value ++ us.max_size % 256 ∷ [])

-- The rest of the writing, after some bytes.
infixr 6 ◌▹◌
abbrev pub ◌▹◌ : {A : Type 0} → Bytes → M Writer A → M Writer A
bs ▹ k = put_all bs >>= λ _. k

put_at :
    {A : Type 0} (b : ℕ) (k : M Writer A) (w s : Bytes)
    → (put b >>= λ _. k) (record { written = w; space = s })
      ≡ ((b ∷ []) ▹ k) (record { written = w; space = s })
unfolding put_all
put_at b k w [] = refl
put_at b k w (x ∷ s) = refl

pub put-▹ : {A : Type 0} (b : ℕ) (k : M Writer A) → (put b >>= λ _. k) ≡ (b ∷ []) ▹ k
put-▹ b k = fun_ext λ w. put_at b k w.written w.space

append_at :
    {A : Type 0} (xs ys : Bytes) (k : M Writer A) (w s : Bytes)
    → (xs ▹ ys ▹ k) (record { written = w; space = s })
      ≡ ((xs ++ ys) ▹ k) (record { written = w; space = s })
unfolding put_all
append_at [] ys k w s = refl
append_at (b ∷ xs) ys k w [] = refl
append_at (b ∷ xs) ys k w (x ∷ s) = append_at xs ys k (w ++ b ∷ []) s

pub ▹-▹ : {A : Type 0} (xs ys : Bytes) (k : M Writer A) → xs ▹ ys ▹ k ≡ (xs ++ ys) ▹ k
▹-▹ xs ys k = fun_ext λ w. append_at xs ys k w.written w.space

-- Writing bytes into enough room.
pub put_all_lem :
    (bs w s : Bytes)
    → length bs ≤ length s
    → put_all bs (record { written = w; space = s })
      ≡ done (tt, record { written = w ++ bs; space = drop (length bs) s })
unfolding put_all
put_all_lem [] w s h = rw append-nil
put_all_lem (b ∷ bs) w [] h = absurd (omega arith)
put_all_lem (b ∷ bs) w (x ∷ s) h = put_all_lem bs (w ++ b ∷ []) s (omega arith) ∙ rw append_assoc

put_sized_at :
    {A : Type 0} (n : ℕ) (block : Bytes) (k : M Writer A) (w s : Bytes)
    → n ≤ length block
    → (put_sized n block >>= λ _. k) (record { written = w; space = s })
      ≡ (sized true n block ▹ k) (record { written = w; space = s })
unfolding put_all
put_sized_at n block k w [] h = refl
put_sized_at n block k w (x ∷ s) h =
    let fits : ltb (length block) n ≡ false = ground arith in
    ap
      (λ b.
        ((λ v. if b then fault out_of_bounds else done (take n block, v)) >>= put_all >>= λ _. k)
          (record { written = w ++ n % 256 ∷ []; space = s }))
      fits

pub put_sized-▹ :
    {A : Type 0} (set : Bool) (n : ℕ) (block : Bytes) (k : M Writer A)
    → n ≤ length block
    → ((if set then put_sized n block else put 0) >>= λ _. k) ≡ sized set n block ▹ k
put_sized-▹ true n block k h = fun_ext λ w. put_sized_at n block k w.written w.space h
put_sized-▹ false n block k h = put-▹ 0 k

module _ (us : UserSetting) (sound : IsSound us) where
  length-sized_value :
      length (sized us.is_set us.value_len us.value) ≡ (if us.is_set then us.value_len + 1 else 1)
  length-sized_value = ground (arith, length-take us.value_len us.value, sound.block, sound.fits)

  pub length-wire : length (wire us) ≡ prv_encode_required_bytes us
  unfolding prv_encode_required_bytes
  length-wire = ground (
    arith,
    length-sized_value,
    length-append us.key (0 ∷ type_code us.setting_type ∷ sized us.is_set us.value_len us.value),
  )

  -- What encode does after its check.
  abbrev body : M Writer (Result ℕ)
  body = put (us.id % 256) >>= λ _. put (us.id / 256 % 256) >>= λ _.
      put_all (us.key ++ 0 ∷ []) >>= λ _. put (type_code us.setting_type) >>= λ _.
      (if us.is_set then put_sized us.value_len us.value else put 0) >>= λ _. index

  body-wire : body ≡ wire us ▹ index
  body-wire =
      ap
        (λ k. put (us.id % 256) >>= λ _. put (us.id / 256 % 256) >>= λ _.
          put_all (us.key ++ 0 ∷ []) >>= λ _. put (type_code us.setting_type) >>= λ _. k)
        (put_sized-▹ us.is_set us.value_len us.value index (omega (arith, sound.block, sound.fits)))
      ∙ ap
          (λ k. put (us.id % 256) >>= λ _.
            put (us.id / 256 % 256) >>= λ _. put_all (us.key ++ 0 ∷ []) >>= λ _. k)
          (put-▹ (type_code us.setting_type) _ ∙ ▹-▹ (type_code us.setting_type ∷ []) _ index)
      ∙ ap (λ k. put (us.id % 256) >>= λ _. put (us.id / 256 % 256) >>= λ _. k)
          (▹-▹ (us.key ++ 0 ∷ []) _ index ∙ ap (λ bs. bs ▹ index) (append_assoc us.key (0 ∷ []) _))
      ∙ ap (λ k. put (us.id % 256) >>= λ _. k)
          (put-▹ (us.id / 256 % 256) _ ∙ ▹-▹ (us.id / 256 % 256 ∷ []) _ index)
      ∙ put-▹ (us.id % 256) _
      ∙ ▹-▹ (us.id % 256 ∷ []) _ index

  -- The short form is one write of `wire`.
  encode-put_all :
      (len : ℕ) (w : Writer)
      → prv_encode_required_bytes us ≤ len
      → encode us len w ≡ (wire us ▹ index) w
  unfolding encode
  encode-put_all len w fits =
      let enough : ltb len (prv_encode_required_bytes us) ≡ false = ground arith in
      ap (λ b. (if b then pure (err enomem) else body) w) enough ∙ ap (λ m. m w) body-wire

  encode_short :
      (len : ℕ) (w : Writer)
      → len < prv_encode_required_bytes us
      → encode us len w ≡ done (err enomem, w)
  unfolding encode
  encode_short len w short =
      let less : ltb len (prv_encode_required_bytes us) ≡ true = ground arith in
      ap (λ b. (if b then pure (err enomem) else body) w) less

  pub encode_lem :
      (len : ℕ) (buffer : Bytes)
      → len ≤ length buffer
      → (len < length (wire us)
          → encode us len (record { written = []; space = buffer })
            ≡ done (err enomem, record { written = []; space = buffer }))
        × (length (wire us) ≤ len
            → encode us len (record { written = []; space = buffer })
              ≡ done (
                ok (length (wire us)),
                record { written = wire us; space = drop (length (wire us)) buffer },
              ))
  encode_lem len buffer room = (
    λ short.
        encode_short len (record { written = []; space = buffer }) (omega (arith, length-wire)),
    λ fits.
        encode-put_all len (record { written = []; space = buffer }) (omega (arith, length-wire))
        ∙ bind_done (put_all (wire us)) (record { written = []; space = buffer }) (λ _. index)
            (put_all_lem (wire us) [] buffer (omega arith)),
  )

  encode-wire :
      (len : ℕ) (buffer : Bytes)
      → len ≤ length buffer
      → encode us len (record { written = []; space = buffer }) ≡ (
          if ltb len (length (wire us))
          then done (err enomem, record { written = []; space = buffer })
          else done (
            ok (length (wire us)),
            record { written = wire us; space = drop (length (wire us)) buffer },
          ))
  encode-wire len buffer room = elim (Bool-cases (ltb len (length (wire us)))) [
    | inl e ↦ (encode_lem len buffer room).0 (ground arith) ∙ rw e
    | inr e ↦ (encode_lem len buffer room).1 (ground arith) ∙ rw e
  ]

  sized-value_field :
      (set : Bool) (n : ℕ) (block : Bytes) → n < 256 → sized set n block ≡ value_field set n block
  sized-value_field true n block small = ap (λ b. b ∷ take n block) (omega arith)
  sized-value_field false n block small = refl

  wire-get_response : us.value_len < 256 → wire us ≡ get_response us
  wire-get_response small =
      ap (λ bs. us.id % 256 ∷ us.id / 256 % 256 ∷ us.key ++ 0 ∷ type_code us.setting_type ∷ bs)
        (sized-value_field us.is_set us.value_len us.value small)
      ∙ ap (λ bs. us.id % 256 ∷ us.id / 256 % 256 ∷ bs) (sym (append_assoc us.key (0 ∷ []) _))

  -- For a sound setting whose value has less than 256 bytes, and a buffer of at least `len` bytes:
  -- where `len` is less than the length of the response, -ENOMEM and nothing is written; otherwise
  -- exactly the response is written (the ID in two bytes, the key and a zero, the type, the length
  -- of the value in one byte and the bytes of the value, or a zero where it is not set), its length
  -- is returned, and the rest of the buffer is as it was. No write misses the buffer.
  pub encode-get_response :
      (len : ℕ) (buffer : Bytes)
      → len ≤ length buffer
      → us.value_len < 256
      → encode us len (record { written = []; space = buffer }) ≡ (
          if ltb len (length (get_response us))
          then done (err enomem, record { written = []; space = buffer })
          else done (
            ok (length (get_response us)),
            record { written = get_response us; space = drop (length (get_response us)) buffer },
          ))
  encode-get_response len buffer room small =
      subst
        (λ bs. encode us len (record { written = []; space = buffer }) ≡ (
          if ltb len (length bs)
          then done (err enomem, record { written = []; space = buffer })
          else done (ok (length bs), record { written = bs; space = drop (length bs) buffer })))
        (wire-get_response small) (encode-wire len buffer room)
