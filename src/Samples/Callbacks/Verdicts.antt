-- ===== src/Samples/Callbacks/Verdicts.antt =====
-- What the validation callbacks of samples/callbacks/src/main.c accept.
use irnas_usersettings_lib.Base.{
  ℕ, ◌+◌, ◌*◌, ◌^◌, ◌<◌, ◌≤◌, ◌≡◌, ◌↔◌, ◌∙◌, arith, Bool, true, some, ◌∷◌, get_elem?, Bytes, done,
}
use irnas_usersettings_lib.Memory.{ℤ, pos, negsuc, to_unsigned}
use irnas_usersettings_lib.Setting.{UserSetting}
use irnas_usersettings_lib.State.{State}
use irnas_usersettings_lib.SettingsList.Lookup.{IsWellFormed, get_by_id_self}
use irnas_usersettings_lib.Settings.Query.{get_type_with_id}
use irnas_usersettings_lib.ValidationHelpers.{
  IntType, uint8, uint16, uint32, uint64, int8, int16, int32, int64, converted, value_at,
}
use irnas_usersettings_lib.ValidationHelpers.Verdicts.{IsAtMost, bytes_of, value_at-bytes_of}
use irnas_usersettings_lib.Samples.Callbacks.{int_type, in_bounds, prv_validate_t2_t9, validate_t10}

-- No integer type has more than 64 bits.
abbrev FitsIn64 : ℤ → Type 0
FitsIn64 (pos n) = n < 2 ^ 64
FitsIn64 (negsuc n) = n < 2 ^ 63

converted-FitsIn64 : (t : IntType) (v : ℤ) → converted t v ≡ v → FitsIn64 v
converted-FitsIn64 uint8 (pos n) e = ground arith
converted-FitsIn64 uint16 (pos n) e = ground arith
converted-FitsIn64 uint32 (pos n) e = ground arith
converted-FitsIn64 uint64 (pos n) e = ground arith
converted-FitsIn64 int8 (pos n) e = ground arith
converted-FitsIn64 int16 (pos n) e = ground arith
converted-FitsIn64 int32 (pos n) e = ground arith
converted-FitsIn64 int64 (pos n) e = ground arith
converted-FitsIn64 uint8 (negsuc n) e = ground arith
converted-FitsIn64 uint16 (negsuc n) e = ground arith
converted-FitsIn64 uint32 (negsuc n) e = ground arith
converted-FitsIn64 uint64 (negsuc n) e = ground arith
converted-FitsIn64 int8 (negsuc n) e = ground arith
converted-FitsIn64 int16 (negsuc n) e = ground arith
converted-FitsIn64 int32 (negsuc n) e = ground arith
converted-FitsIn64 int64 (negsuc n) e = ground arith

in_bounds_iff :
    (id : ℕ) (v : ℤ)
    → id < 2 ^ 16
    → FitsIn64 v
    → (in_bounds id (to_unsigned 64 v) ≡ true)
      ↔ (IsAtMost (pos (id * 10)) v × IsAtMost v (pos (id * 10 + 9)))
in_bounds_iff id (pos n) small fits = ground arith
in_bounds_iff id (negsuc n) small fits = ground arith

module _ {Subsys Heap : Type 0} (after : ℕ → ℕ) (s : State Subsys Heap) (p : ℕ) (us : UserSetting)
    (t : IntType) (v : ℤ) where
  -- In a well-formed, loaded library, for a setting with an ID below 65536 and an integer type, given
  -- the bytes of a number of that type: the callback returns, changes nothing, and accepts exactly the
  -- numbers from 10 times the ID to 9 more, in the order of the integers; so no negative one.
  pub prv_validate_t2_t9_lem :
      (key : Bytes)
      → s.is_loaded ≡ true
      → IsWellFormed s.settings
      → get_elem? s.settings p ≡ some us
      → us.id < 2 ^ 16
      → int_type us.setting_type ≡ some t
      → converted t v ≡ v
      → (verdict : Bool) × (prv_validate_t2_t9 after us.id key (bytes_of t v) s ≡ done (verdict, s))
        × ((verdict ≡ true) ↔ (IsAtMost (pos (us.id * 10)) v × IsAtMost v (pos (us.id * 10 + 9))))
  unfolding prv_validate_t2_t9 get_type_with_id
  prv_validate_t2_t9_lem key loaded w here small type fits =
      let read : value_at t (bytes_of t v) after ≡ v = value_at-bytes_of t v after ∙ fits in
      let found = get_by_id_self p us w here in
      (
        in_bounds us.id (to_unsigned 64 v),
        ground (arith, loaded, found, here, type, read),
        in_bounds_iff us.id v small (converted-FitsIn64 t v fits),
      )

pub validate_t10_iff :
    (after : ℕ → ℕ) (id b : ℕ) (key bs : Bytes)
    → (validate_t10 after id key (b ∷ bs) ≡ true) ↔ ((65 ≤ b) × (b ≤ 90))
unfolding validate_t10
validate_t10_iff after id b key bs = ground arith
