-- ===== src/Memory.antt =====
-- Numbers and strings in memory: little-endian bytes, the conversions between integer types, and
-- strings that end with a zero byte. GCC defines the conversion to a signed type as reduction
-- modulo 2 ^ w.
use native.Mathlib.Omega.{pow_step}
use irnas_usersettings_lib.Base.{
  ℕ, zero, suc, ◌+◌, ◌-◌, ◌*◌, ◌/◌, ◌%◌, ◌^◌, ◌<◌, ◌≤◌, ◌≡◌, ◌≢◌, refl, arith, Option, none, some,
  [], ◌∷◌, length, take, All, Bytes, ltb, ◌==◌, if◌then◌else◌, M, ◌>>=◌, pure, stop, out_of_bounds,
}
use irnas_usersettings_lib.Setting.{
  UserSettingType, type_bool, type_u8, type_u16, type_u32, type_u64, type_i8, type_i16, type_i32,
  type_i64, type_str, type_bytes,
}

-- The integers over the native numbers; `negsuc n` is -(n + 1).
pub data ℤ : Type 0 where
  pos negsuc : ℕ → ℤ

-- The conversion to an unsigned type of `w` bits.
abbrev pub to_unsigned : ℕ → ℤ → ℕ
to_unsigned w (pos n) = n % 2 ^ w
to_unsigned w (negsuc n) = 2 ^ w - 1 - n % 2 ^ w

-- The `w` bits of an unsigned number as a signed type.
abbrev pub as_signed : ℕ → ℕ → ℤ
as_signed w n = if ltb n (2 ^ (w - 1)) then pos n else negsuc (2 ^ w - 1 - n)

-- `(int)x`
abbrev pub to_int : ℤ → ℤ
to_int x = as_signed 32 (to_unsigned 32 x)

-- `n` bytes of a number, the low byte first, and the number that bytes are.
abbrev pub le_bytes : ℕ → ℕ → Bytes
le_bytes zero v = []
le_bytes (suc n) v = v % 256 ∷ le_bytes n (v / 256)

abbrev pub le_value : Bytes → ℕ
le_value [] = 0
le_value (b ∷ bs) = b + 256 * le_value bs

-- The string at the start of a block; `none` if no zero byte ends it.
abbrev pub c_string : Bytes → Option Bytes
c_string [] = none
c_string (b ∷ bs) =
    if b == 0 then some [] else elim (c_string bs) [ none ↦ none | some s ↦ some (b ∷ s) ]

-- The string that a block starts with.
abbrev pub text : Bytes → Bytes
text block = elim (c_string block) [ none ↦ [] | some s ↦ s ]

-- The block has the bytes that a value of the type is read from: for a string, a zero that ends it.
abbrev pub HasType : UserSettingType → Bytes → ℕ → Type 0
HasType type_bool block len = 1 ≤ length block
HasType type_u8 block len = 1 ≤ length block
HasType type_u16 block len = 2 ≤ length block
HasType type_u32 block len = 4 ≤ length block
HasType type_u64 block len = 8 ≤ length block
HasType type_i8 block len = 1 ≤ length block
HasType type_i16 block len = 2 ≤ length block
HasType type_i32 block len = 4 ≤ length block
HasType type_i64 block len = 8 ≤ length block
HasType type_str block len = (s : Bytes) × (c_string block ≡ some s)
HasType type_bytes block len = len ≤ length block

module _ {S : Type 0} where
  -- The first `n` bytes that a pointer points to.
  abbrev pub read_prefix : ℕ → Bytes → M S Bytes
  read_prefix n block = if ltb (length block) n then stop out_of_bounds else pure (take n block)

  -- `*(uintN_t *)data` and `*(intN_t *)data`, for `n` bytes
  abbrev pub read_unsigned : ℕ → Bytes → M S ℤ
  read_unsigned n block = do bs ← read_prefix n block; pure (pos (le_value bs))

  abbrev pub read_signed : ℕ → Bytes → M S ℤ
  read_signed n block = do bs ← read_prefix n block; pure (as_signed (8 * n) (le_value bs))

  -- strlen runs on until it meets a zero.
  abbrev pub read_string : Bytes → M S Bytes
  read_string block = elim (c_string block) [ none ↦ stop out_of_bounds | some s ↦ pure s ]

abbrev pub IsByte : ℕ → Type 0
IsByte b = b < 256

pub le_bytes-le_value : (bs : Bytes) → All IsByte bs → le_bytes (length bs) (le_value bs) ≡ bs
le_bytes-le_value [] h = refl
le_bytes-le_value (b ∷ bs) h =
    let low : (b + 256 * le_value bs) % 256 ≡ b = omega (arith, h.0) in
    let high : (b + 256 * le_value bs) / 256 ≡ le_value bs = omega (arith, h.0) in
    rw (low, high, le_bytes-le_value bs h.1) refl

pub le_value_lt : (bs : Bytes) → All IsByte bs → le_value bs < 256 ^ length bs
le_value_lt [] h = omega arith
le_value_lt (b ∷ bs) h = omega (arith, h.0, le_value_lt bs h.1, pow_step 256 (length bs))

pub le_value-le_bytes : (n v : ℕ) → v < 256 ^ n → le_value (le_bytes n v) ≡ v
le_value-le_bytes zero v h = omega arith
le_value-le_bytes (suc n) v h =
    let rest : v / 256 < 256 ^ n = omega (arith, pow_step 256 n) in
    omega (arith, le_value-le_bytes n (v / 256) rest)

-- A number that the conversion to int and the one to its type give back.
module _ (v : ℕ) where
  pub to_int-pos8 : v < 256 ^ 1 → to_unsigned 8 (to_int (pos v)) ≡ v
  to_int-pos8 h = ground arith

  pub to_int-pos16 : v < 256 ^ 2 → to_unsigned 16 (to_int (pos v)) ≡ v
  to_int-pos16 h = ground arith

  pub to_int-pos32 : v < 256 ^ 4 → to_unsigned 32 (to_int (pos v)) ≡ v
  to_int-pos32 h = ground arith

  pub to_int-signed8 : v < 256 ^ 1 → to_unsigned 8 (to_int (as_signed 8 v)) ≡ v
  to_int-signed8 h = ground arith

  pub to_int-signed16 : v < 256 ^ 2 → to_unsigned 16 (to_int (as_signed 16 v)) ≡ v
  to_int-signed16 h = ground arith

  pub to_int-signed32 : v < 256 ^ 4 → to_unsigned 32 (to_int (as_signed 32 v)) ≡ v
  to_int-signed32 h = ground arith

  pub to_int-pos64 : v < 2 ^ 31 → to_unsigned 64 (to_int (pos v)) ≡ v
  to_int-pos64 h = ground arith

  pub to_int-signed64 : v < 2 ^ 31 → to_unsigned 64 (to_int (as_signed 64 v)) ≡ v
  to_int-signed64 h = ground arith

  pub to_int-signed64_negative :
      v < 2 ^ 64 → 2 ^ 64 - 2 ^ 31 ≤ v → to_unsigned 64 (to_int (as_signed 64 v)) ≡ v
  to_int-signed64_negative h low = ground arith

  -- One of 8 bytes that does not come back.
  pub to_int-pos64_lost : 2 ^ 31 ≤ v → v < 2 ^ 64 - 2 ^ 31 → to_unsigned 64 (to_int (pos v)) ≢ v
  to_int-pos64_lost low high e = ground arith

  pub to_int-pos64_fits : to_unsigned 64 (to_int (pos v)) < 256 ^ 8
  to_int-pos64_fits = ground arith
