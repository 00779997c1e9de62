-- ===== src/Json/Carried.antt =====
-- The bytes that library/user_settings/user_settings_json.c makes of the JSON value that it wrote
-- for a setting.
use irnas_usersettings_lib.Base.{
  ℕ, zero, suc, ◌-◌, ◌*◌, ◌/◌, ◌^◌, ◌≤◌, ◌<◌, ◌≡◌, ◌⊎◌, inl, inr, ◌∙◌, refl, sym, ap, subst, arith,
  false, Option, some, [], ◌∷◌, ◌++◌, length, take, length-take, All, Bytes, ltb, ◌==◌, done,
  Outcome, Bool-cases, Option-cases,
}
use irnas_usersettings_lib.Setting.{
  UserSetting, UserSettingType, type_bool, type_u8, type_u16, type_u32, type_u64, type_i8, type_i16,
  type_i32, type_i64, type_str, type_bytes,
}
use irnas_usersettings_lib.State.{State}
use irnas_usersettings_lib.Memory.{
  text, le_bytes, le_value, c_string, IsByte, le_bytes-le_value, le_value_lt, to_int-pos8,
  to_int-pos16, to_int-pos32, to_int-pos64, to_int-signed8, to_int-signed16, to_int-signed32,
  to_int-signed64, to_int-signed64_negative,
}
use irnas_usersettings_lib.Hex.{hex_encode, hex_decode-encode, length-hex_encode}
use irnas_usersettings_lib.Json.{json_bytes}
use irnas_usersettings_lib.Json.Values.{json_value}

All-take : (n : ℕ) (bs : Bytes) → All IsByte bs → All IsByte (take n bs)
All-take zero bs h = tt
All-take (suc n) [] h = tt
All-take (suc n) (b ∷ bs) h = (h.0, All-take n bs h.1)

-- A value that JSON can carry: the length is the one of the type, a bool is 0 or 1, a number of 8
-- bytes is in the range of int, a string ends with its first zero byte, and there are at most 1024
-- bytes.
abbrev pub PortableAs : UserSettingType → UserSetting → Type 0
PortableAs type_bool us = (us.value_len ≡ 1) × (le_value (take 1 us.value) < 2)
PortableAs type_u8 us = us.value_len ≡ 1
PortableAs type_u16 us = us.value_len ≡ 2
PortableAs type_u32 us = us.value_len ≡ 4
PortableAs type_u64 us = (us.value_len ≡ 8) × (le_value (take 8 us.value) < 2 ^ 31)
PortableAs type_i8 us = us.value_len ≡ 1
PortableAs type_i16 us = us.value_len ≡ 2
PortableAs type_i32 us = us.value_len ≡ 4
PortableAs type_i64 us =
    (us.value_len ≡ 8)
    × ((le_value (take 8 us.value) < 2 ^ 31) ⊎ (2 ^ 64 - 2 ^ 31 ≤ le_value (take 8 us.value)))
PortableAs type_str us =
    (s : Bytes) × (c_string us.value ≡ some s) × (us.value_len ≡ suc (length s))
PortableAs type_bytes us = us.value_len ≤ 1024

pub record IsPortable (us : UserSetting) : Type 0 where
  pub fits : us.value_len ≤ length us.value
  pub bytes : All IsByte us.value
  pub typed : PortableAs us.setting_type us

-- A number of `n` bytes that comes back as it was.
number_back :
    (n v len : ℕ) (block : Bytes)
    → len ≤ length block
    → All IsByte block
    → len ≡ n
    → (le_value (take n block) < 256 ^ n → v ≡ le_value (take n block))
    → le_bytes n v ≡ take len block
number_back n v len block fits h same e =
    let long : n ≤ length block = omega arith in
    let size = length-take n block long in
    let bs_h = All-take n block h in
    let small =
      subst (λ m. le_value (take n block) < 256 ^ m) size (le_value_lt (take n block) bs_h) in
    ap (le_bytes n) (e small)
    ∙ ap (λ m. le_bytes m (le_value (take n block))) (sym size)
    ∙ le_bytes-le_value (take n block) bs_h
    ∙ ap (λ m. take m block) (sym same)

take-c_string :
    (block : Bytes) {s : Bytes}
    → c_string block ≡ some s
    → take (suc (length s)) block ≡ s ++ 0 ∷ []
take-c_string [] e = cc
take-c_string (b ∷ block) {s} e = elim (Bool-cases (b == 0)) [
  | inl ends ↦
      let is_empty : s ≡ [] = ground arith in
      let is_zero : b ≡ 0 = ground arith in rw (is_empty, is_zero) refl
  | inr goes_on ↦ elim (Option-cases (c_string block)) [
    | inl none_left ↦ ground arith
    | inr (t, rest) ↦
        let same : s ≡ b ∷ t = ground arith in rw same (ap (◌∷◌ b) (take-c_string block rest))
  ]
]

module _ {Subsys Heap : Type 0} where
  abbrev some_bytes : State Subsys Heap → Bytes → Outcome (Option Bytes × State Subsys Heap)
  some_bytes s bs = done (some bs, s)

  pub carried :
      (type : UserSettingType) (us : UserSetting) (s : State Subsys Heap)
      → us.value_len ≤ length us.value
      → All IsByte us.value
      → PortableAs type us
      → json_bytes type (json_value type us) s ≡ done (some (take us.value_len us.value), s)
  unfolding json_bytes
  carried type_bool us s fits h (len, small) = elim (Bool-cases (le_value (take 1 us.value) == 0)) [
    | inl is_zero ↦
        rw is_zero (ap (some_bytes s) (number_back 1 0 _ us.value fits h len (λ lt. ground arith)))
    | inr is_one ↦
        rw is_one (ap (some_bytes s) (number_back 1 1 _ us.value fits h len (λ lt. ground arith)))
  ]
  carried type_u8 us s fits h len =
      ap (some_bytes s) (number_back 1 _ _ us.value fits h len (to_int-pos8 _))
  carried type_u16 us s fits h len =
      ap (some_bytes s) (number_back 2 _ _ us.value fits h len (to_int-pos16 _))
  carried type_u32 us s fits h len =
      ap (some_bytes s) (number_back 4 _ _ us.value fits h len (to_int-pos32 _))
  carried type_u64 us s fits h (len, small) =
      ap (some_bytes s) (number_back 8 _ _ us.value fits h len (λ lt. to_int-pos64 _ small))
  carried type_i8 us s fits h len =
      ap (some_bytes s) (number_back 1 _ _ us.value fits h len (to_int-signed8 _))
  carried type_i16 us s fits h len =
      ap (some_bytes s) (number_back 2 _ _ us.value fits h len (to_int-signed16 _))
  carried type_i32 us s fits h len =
      ap (some_bytes s) (number_back 4 _ _ us.value fits h len (to_int-signed32 _))
  carried type_i64 us s fits h (len, inl small) =
      ap (some_bytes s) (number_back 8 _ _ us.value fits h len (λ lt. to_int-signed64 _ small))
  carried type_i64 us s fits h (len, inr low) =
      ap (some_bytes s)
        (number_back 8 _ _ us.value fits h len (λ lt. to_int-signed64_negative _ (lt) low))
  carried type_str us s fits h (t, e, len) =
      let is_text : text us.value ≡ t = rw (e, text) refl in
      ap (some_bytes s) (
        ap (λ u. u ++ 0 ∷ []) is_text
        ∙ sym (take-c_string us.value e)
        ∙ ap (λ n. take n us.value) (sym len))
  carried type_bytes us s fits h small =
      let bs = take us.value_len us.value in
      let size : length bs ≡ us.value_len = length-take us.value_len us.value fits in
      let long : length (hex_encode bs) ≡ 2 * us.value_len =
        omega (arith, length-hex_encode bs, size) in
      let room : ltb 1024 (length (hex_encode bs) / 2) ≡ false =
        within (length (hex_encode bs)) us.value_len long small in
      let back = hex_decode-encode bs (All-take us.value_len us.value h) in
      rw room (ap (some_bytes s) back)
    where
      within : (m n : ℕ) → m ≡ 2 * n → n ≤ 1024 → ltb 1024 (m / 2) ≡ false
      within m n e h = ground arith
