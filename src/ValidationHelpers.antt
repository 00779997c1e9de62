-- ===== src/ValidationHelpers.antt =====
-- library/include/user_settings_validation_helpers.h: the two macros that define a validation
-- callback.
pub mod Verdicts
use irnas_usersettings_lib.Base.{
  ℕ, zero, suc, ◌*◌, ◌≤◌, ◌==◌, Bool, true, false, not, ◌||◌, List, [], ◌∷◌, length, Bytes, ltb,
  if◌then◌else◌,
}
use irnas_usersettings_lib.Memory.{ℤ, pos, negsuc, to_unsigned, as_signed, le_value}
use irnas_usersettings_lib.Setting.{ValidateCb}

-- The integer types that a range can be given for.
pub data IntType : Type 0 where
  uint8 uint16 uint32 uint64 int8 int16 int32 int64 : IntType

abbrev pub size_of : IntType → ℕ
size_of uint8 = 1
size_of uint16 = 2
size_of uint32 = 4
size_of uint64 = 8
size_of int8 = 1
size_of int16 = 2
size_of int32 = 4
size_of int64 = 8

abbrev pub is_signed : IntType → Bool
is_signed uint8 = false
is_signed uint16 = false
is_signed uint32 = false
is_signed uint64 = false
is_signed _ = true

-- The bits of an object of the type, as a number.
abbrev pub bits_value : IntType → ℕ → ℤ
bits_value t n = if is_signed t then as_signed (8 * size_of t) n else pos n

-- `const type x = n`
abbrev pub converted : IntType → ℤ → ℤ
converted t n = bits_value t (to_unsigned (8 * size_of t) n)

-- `x < y`
abbrev pub less : ℤ → ℤ → Bool
less (pos a) (pos b) = ltb a b
less (pos a) (negsuc b) = false
less (negsuc a) (pos b) = true
less (negsuc a) (negsuc b) = ltb b a

-- The first `n` bytes from an address where the data stands, and after it other bytes.
abbrev pub in_memory : ℕ → Bytes → (ℕ → ℕ) → Bytes
in_memory zero bs after = []
in_memory (suc n) (b ∷ bs) after = b ∷ in_memory n bs after
in_memory (suc n) [] after = after 0 ∷ in_memory n [] (λ i. after (suc i))

-- `*(type *)data`, where `after` is what stands in memory after the data.
abbrev pub value_at : IntType → Bytes → (ℕ → ℕ) → ℤ
value_at t bs after = bits_value t (le_value (in_memory (size_of t) bs after))

-- USER_SETTINGS_VALIDATE_CB_RANGE(name, type, min, max): the length is not looked at.
unfoldable pub validate_cb_range : (ℕ → ℕ) → IntType → ℤ → ℤ → ValidateCb
validate_cb_range after t min max id key bs =
    let val = value_at t bs after in
    if less val (converted t min) || less (converted t max) val then false else true

-- USER_SETTINGS_VALIDATE_CB_EXACT_SIZE(name, size)
unfoldable pub validate_cb_exact_size : ℕ → ValidateCb
validate_cb_exact_size size id key bs = if not (length bs == size) then false else true
