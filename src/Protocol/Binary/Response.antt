-- ===== src/Protocol/Binary/Response.antt =====
-- A client's reading of the GET response, as library/protocol/binary/README.md describes it, and
-- that it reads back what the encoder of user_settings_protocol_binary.c wrote.
use mathlib.Core.List.{append_assoc}
use irnas_usersettings_lib.Base.{
  ℕ, ◌+◌, ◌*◌, ◌≤◌, ◌<◌, ◌≡◌, ◌≢◌, refl, ap, ◌∙◌, Bool, true, false, Option, none, some, [], ◌∷◌,
  ◌++◌, arith, length, length-append, length-take, take, drop, take-append, drop-append, All, Bytes,
  ltb, ◌==◌, if◌then◌else◌,
}
use irnas_usersettings_lib.Setting.{UserSetting, IsSound, type_code}
use irnas_usersettings_lib.Protocol.Binary.Wire.{sized, wire, encode_lem}
use irnas_usersettings_lib.Protocol.Binary.Encode.{Writer, encode}
use irnas_usersettings_lib.Base.{ok, done}

pub record Response : Type 0 where
  pub id : ℕ
  pub key : Bytes
  pub type_byte : ℕ
  pub value : Bytes

-- A null terminated string, and what follows it.
unfoldable pub read_key : Bytes → Option (Bytes × Bytes)
read_key [] = none
read_key (b ∷ bs) =
    if b == 0
    then some ([], bs)
    else elim (read_key bs) [ none ↦ none | some (key, rest) ↦ some (b ∷ key, rest) ]

-- A length byte, that many bytes, and what follows them.
unfoldable pub read_sized : Bytes → Option (Bytes × Bytes)
read_sized [] = none
read_sized (n ∷ bs) = if ltb (length bs) n then none else some (take n bs, drop n bs)

read_value : ℕ → Bytes × Bytes → Option (Response × Bytes)
unfolding read_sized
read_value id (key, []) = none
read_value id (key, type_byte ∷ bs) = elim (read_sized bs) [
  | none ↦ none
  | some (value, rest) ↦
      some (record { id = id; key = key; type_byte = type_byte; value = value }, rest)
]

unfoldable pub read_response : Bytes → Option (Response × Bytes)
unfolding read_key read_value
read_response [] = none
read_response (lo ∷ []) = none
read_response (lo ∷ hi ∷ bs) = elim (read_key bs) [
  | none ↦ none
  | some kr ↦ read_value (lo + 256 * hi) kr
]

-- The bytes of a value in use, none if it is not set.
abbrev pub in_use : Bool → ℕ → Bytes → Bytes
in_use true n block = take n block
in_use false n block = []

read_key-append :
    (key rest : Bytes) → All (λ b. b ≢ 0) key → read_key (key ++ 0 ∷ rest) ≡ some (key, rest)
unfolding read_key
read_key-append [] rest h = refl
read_key-append (b ∷ key) rest h = ground (arith, h.0, read_key-append key rest h.1)

read_sized-append :
    (set : Bool) (n : ℕ) (block rest : Bytes)
    → n ≤ length block
    → n < 256
    → read_sized (sized set n block ++ rest) ≡ some (in_use set n block, rest)
unfolding read_sized
read_sized-append true n block rest h fits = ground (
  arith,
  length-append (take n block) rest,
  length-take n block h,
  ap (λ k. take k (take n block ++ rest)) (length-take n block h),
  ap (λ k. drop k (take n block ++ rest)) (length-take n block h),
  take-append (take n block) rest,
  drop-append (take n block) rest,
)
read_sized-append false n block rest h fits = ground arith

-- Reading the fields after the ID.
read_fields :
    (id type_byte : ℕ) (key body value rest : Bytes)
    → All (λ b. b ≢ 0) key
    → read_sized (body ++ rest) ≡ some (value, rest)
    → (elim (read_key ((key ++ 0 ∷ type_byte ∷ body) ++ rest)) [
      | none ↦ none
      | some kr ↦ read_value id kr
    ])
      ≡ some (record { id = id; key = key; type_byte = type_byte; value = value }, rest)
unfolding read_value
read_fields id type_byte key body value rest no_null h =
    ap (λ bs. elim (read_key bs) [ none ↦ none | some kr ↦ read_value id kr ])
      (append_assoc key (0 ∷ type_byte ∷ body) rest)
    ∙ ap (λ r. elim r [ none ↦ none | some kr ↦ read_value id kr ])
        (read_key-append key (type_byte ∷ body ++ rest) no_null)
    ∙ ap
        (λ r. elim r [
          | none ↦ none
          | some (value, rest) ↦
              some (record { id = id; key = key; type_byte = type_byte; value = value }, rest)
        ])
        h

-- For a sound setting whose key has no null byte and whose value has less than 256 bytes, a client
-- reads from the GET response, whatever follows it, the ID, the key, the type, and the bytes of the
-- value, none if it is not set.
pub read_response-wire :
    (us : UserSetting) (rest : Bytes)
    → IsSound us
    → All (λ b. b ≢ 0) us.key
    → us.value_len < 256
    → read_response (wire us ++ rest)
      ≡ some (
        record {
          id = us.id;
          key = us.key;
          type_byte = type_code us.setting_type;
          value = in_use us.is_set us.value_len us.value;
        },
        rest,
      )
unfolding read_response
read_response-wire us rest sound no_null fits =
    ap
      (λ id.
        elim (read_key (
          (us.key ++ 0 ∷ type_code us.setting_type ∷ sized us.is_set us.value_len us.value)
          ++ rest)) [ none ↦ none | some kr ↦ read_value id kr ])
      (omega (arith, sound.id_fits))
    ∙ read_fields us.id (type_code us.setting_type) us.key (sized us.is_set us.value_len us.value)
        (in_use us.is_set us.value_len us.value) rest no_null
        (read_sized-append us.is_set us.value_len us.value rest
          (omega (arith, sound.block, sound.fits)) fits)

-- What the encoder writes into a buffer with room for it, a client reads back: for a sound setting
-- whose key has no null byte and whose value has less than 256 bytes, the ID, the key, the type, and
-- the bytes of the value, none if it is not set; and whatever follows is left over.
pub read_response-encode :
    (us : UserSetting) (len : ℕ) (buffer rest : Bytes)
    → IsSound us
    → All (λ b. b ≢ 0) us.key
    → us.value_len < 256
    → length (wire us) ≤ len
    → len ≤ length buffer
    → (w : Writer) × (encode us len (record { written = []; space = buffer })
        ≡ done (ok (length w.written), w))
      × (read_response (w.written ++ rest)
          ≡ some (
            record {
              id = us.id;
              key = us.key;
              type_byte = type_code us.setting_type;
              value = in_use us.is_set us.value_len us.value;
            },
            rest,
          ))
read_response-encode us len buffer rest sound no_null fits room enough = (
  record { written = wire us; space = drop (length (wire us)) buffer },
  (encode_lem us sound len buffer enough).1 room,
  read_response-wire us rest sound no_null fits,
)
