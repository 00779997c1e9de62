-- ===== src/Hex.antt =====
-- Bytes as hexadecimal text, as library/user_settings/user_settings_json.c and
-- library/user_settings/user_settings_shell.c read and write it. Characters are unsigned, as on ARM.
use irnas_usersettings_lib.Base.{
  ℕ, ◌+◌, ◌-◌, ◌*◌, ◌/◌, ◌%◌, ◌<◌, ◌≡◌, refl, arith, [], ◌∷◌, length, All, Bytes, ltb,
  if◌then◌else◌,
}
use irnas_usersettings_lib.Memory.{IsByte}

-- A digit of "%02X".
abbrev pub hex_digit : ℕ → ℕ
hex_digit n = if ltb n 10 then b'0' + n else b'A' + (n - 10)

-- sprintf(bytes + 2 * i, "%02X", data[i]) for each byte
unfoldable pub hex_encode : Bytes → Bytes
hex_encode [] = []
hex_encode (b ∷ bs) = hex_digit (b / 16) ∷ hex_digit (b % 16) ∷ hex_encode bs

-- `(high % 32 + 9) % 25 * 16 + (low % 32 + 9) % 25`, stored in a byte
abbrev pub hex_byte : ℕ → ℕ → ℕ
hex_byte high low = ((high % 32 + 9) % 25 * 16 + (low % 32 + 9) % 25) % 256

-- Two characters make a byte; an odd last one is left out.
unfoldable pub hex_decode : Bytes → Bytes
hex_decode [] = []
hex_decode (c ∷ []) = []
hex_decode (high ∷ low ∷ text) = hex_byte high low ∷ hex_decode text

hex_byte-hex_digit : (b : ℕ) → b < 256 → hex_byte (hex_digit (b / 16)) (hex_digit (b % 16)) ≡ b
hex_byte-hex_digit b h = ground arith

-- The text of any bytes, with upper-case digits, is read back as exactly these bytes.
pub hex_decode-encode : (bs : Bytes) → All IsByte bs → hex_decode (hex_encode bs) ≡ bs
unfolding hex_decode hex_encode
hex_decode-encode [] h = refl
hex_decode-encode (b ∷ bs) h = rw (hex_byte-hex_digit b h.0, hex_decode-encode bs h.1) refl

pub length-hex_encode : (bs : Bytes) → length (hex_encode bs) ≡ 2 * length bs
unfolding hex_encode
length-hex_encode [] = refl
length-hex_encode (b ∷ bs) = omega (arith, length-hex_encode bs)

-- Whatever the text is, half as many bytes are read from it, rounded down, and each is a byte.
pub length-hex_decode : (text : Bytes) → length (hex_decode text) ≡ length text / 2
unfolding hex_decode
length-hex_decode [] = omega arith
length-hex_decode (c ∷ []) = omega arith
length-hex_decode (high ∷ low ∷ text) = omega (arith, length-hex_decode text)
