-- ===== src/ValidationHelpers/Verdicts.antt =====
-- What the callbacks that library/include/user_settings_validation_helpers.h defines accept.
use irnas_usersettings_lib.Base.{
  ℕ, zero, suc, ◌*◌, ◌/◌, ◌%◌, ◌^◌, ◌<◌, ◌≤◌, ◌≡◌, ◌↔◌, ap, ◌∙◌, refl, arith, true, false, ◌||◌, [],
  ◌∷◌, length, Bytes, if◌then◌else◌,
}
use irnas_usersettings_lib.Memory.{
  ℤ, pos, negsuc, to_unsigned, le_bytes, le_value, le_value-le_bytes,
}
use irnas_usersettings_lib.ValidationHelpers.{
  IntType, uint8, uint16, uint32, uint64, int8, int16, int32, int64, size_of, bits_value, converted,
  less, in_memory, value_at, validate_cb_range, validate_cb_exact_size,
}

-- The order of the integers.
abbrev pub IsAtMost : ℤ → ℤ → Type 0
IsAtMost (pos a) (pos b) = a ≤ b
IsAtMost (pos a) (negsuc b) = 1 ≤ 0
IsAtMost (negsuc a) (pos b) = 0 ≤ 0
IsAtMost (negsuc a) (negsuc b) = b ≤ a

less_iff : (a b : ℤ) → (less a b ≡ false) ↔ IsAtMost b a
less_iff (pos a) (pos b) = ground arith
less_iff (pos a) (negsuc b) = ground arith
less_iff (negsuc a) (pos b) = ground arith
less_iff (negsuc a) (negsuc b) = ground arith

-- An object of the type in memory: its bytes, the low byte first.
abbrev pub bytes_of : IntType → ℤ → Bytes
bytes_of t v = le_bytes (size_of t) (to_unsigned (8 * size_of t) v)

-- The conversion wraps to the width of the type.
wraps8 : (v : ℤ) → to_unsigned 8 v < 256 ^ 1
wraps8 (pos n) = ground arith
wraps8 (negsuc n) = ground arith

wraps16 : (v : ℤ) → to_unsigned 16 v < 256 ^ 2
wraps16 (pos n) = ground arith
wraps16 (negsuc n) = ground arith

wraps32 : (v : ℤ) → to_unsigned 32 v < 256 ^ 4
wraps32 (pos n) = ground arith
wraps32 (negsuc n) = ground arith

wraps64 : (v : ℤ) → to_unsigned 64 v < 256 ^ 8
wraps64 (pos n) = ground arith
wraps64 (negsuc n) = ground arith

to_unsigned_lt : (t : IntType) (v : ℤ) → to_unsigned (8 * size_of t) v < 256 ^ size_of t
to_unsigned_lt uint8 v = wraps8 v
to_unsigned_lt uint16 v = wraps16 v
to_unsigned_lt uint32 v = wraps32 v
to_unsigned_lt uint64 v = wraps64 v
to_unsigned_lt int8 v = wraps8 v
to_unsigned_lt int16 v = wraps16 v
to_unsigned_lt int32 v = wraps32 v
to_unsigned_lt int64 v = wraps64 v

in_memory-le_bytes : (n v : ℕ) (after : ℕ → ℕ) → in_memory n (le_bytes n v) after ≡ le_bytes n v
in_memory-le_bytes zero v after = refl
in_memory-le_bytes (suc n) v after = ap (◌∷◌ (v % 256)) (in_memory-le_bytes n (v / 256) after)

pub value_at-bytes_of :
    (t : IntType) (v : ℤ) (after : ℕ → ℕ) → value_at t (bytes_of t v) after ≡ converted t v
value_at-bytes_of t v after =
    let n = to_unsigned (8 * size_of t) v in
    ap (λ bs. bits_value t (le_value bs)) (in_memory-le_bytes (size_of t) n after)
    ∙ ap (bits_value t) (le_value-le_bytes (size_of t) n (to_unsigned_lt t v))

in_range :
    (v min max : ℤ)
    → ((if less v min || less max v then false else true) ≡ true)
      ↔ (IsAtMost min v × IsAtMost v max)
in_range v min max = ground (arith, less_iff v min, less_iff max v)

-- A callback of USER_SETTINGS_VALIDATE_CB_RANGE for any of the eight integer types, with limits of
-- that type, accepts the bytes of a number of that type exactly when it lies between the limits,
-- both included, in the order of the integers.
pub validate_cb_range_lem :
    (after : ℕ → ℕ) (t : IntType) (min max v : ℤ) (id : ℕ) (key : Bytes)
    → converted t min ≡ min
    → converted t max ≡ max
    → converted t v ≡ v
    → (validate_cb_range after t min max id key (bytes_of t v) ≡ true)
      ↔ (IsAtMost min v × IsAtMost v max)
unfolding validate_cb_range
validate_cb_range_lem after t min max v id key min_fits max_fits v_fits =
    rw (value_at-bytes_of t v after, min_fits, max_fits, v_fits) (in_range v min max)

-- A callback of USER_SETTINGS_VALIDATE_CB_RANGE for uint32_t and the limits 40 and 49, given one
-- byte between them: what stands in memory after that byte decides; with zeros it accepts, with ones
-- it does not.
pub range_over_read :
    (b id : ℕ) (key : Bytes)
    → 40 ≤ b
    → b ≤ 49
    → (validate_cb_range (λ _. 0) uint32 (pos 40) (pos 49) id key (b ∷ []) ≡ true)
      × (validate_cb_range (λ _. 1) uint32 (pos 40) (pos 49) id key (b ∷ []) ≡ false)
unfolding validate_cb_range
range_over_read b id key low high = ground arith

pub validate_cb_exact_size_lem :
    (size id : ℕ) (key bs : Bytes)
    → (validate_cb_exact_size size id key bs ≡ true) ↔ (length bs ≡ size)
unfolding validate_cb_exact_size
validate_cb_exact_size_lem size id key bs = ground arith
