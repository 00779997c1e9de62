-- ===== src/Samples/Validation.antt =====
-- The program samples/validation/src/main.c, whose callbacks the macros of
-- library/include/user_settings_validation_helpers.h define.
pub mod Run
use irnas_usersettings_lib.Base.{
  ℕ, ◌≡◌, refl, ap, ◌∙◌, sym, subst, true, false, not, Bool, Option, none, some, List, [], ◌∷◌, map,
  modify, M, done, fault, ok, err, Status, Bytes, ◌>>=◌, ◌>>◌, pure, assert, bind_assoc, bind_cong,
  bind_done,
}
use irnas_usersettings_lib.Memory.{pos, negsuc}
use irnas_usersettings_lib.Setting.{UserSetting, ValidateCb}
use irnas_usersettings_lib.Platform.{Platform, PlatformLaws, codes}
use irnas_usersettings_lib.State.{State}
use irnas_usersettings_lib.Settings.Init.{init, load}
use irnas_usersettings_lib.Settings.Query.{
  set_validate_cb_with_key, set_validate_cb_with_id, validate_with_key,
}
use irnas_usersettings_lib.ValidationHelpers.{
  uint8, uint16, uint32, uint64, int8, int16, int32, int64, validate_cb_range,
  validate_cb_exact_size,
}
use irnas_usersettings_lib.Samples.{add_t1_t11}

-- The callbacks, where `after` is what stands in memory after the data that they are given.
module _ (after : ℕ → ℕ) where
  abbrev pub prv_validate_t2 : ValidateCb
  prv_validate_t2 = validate_cb_range after uint8 (pos 20) (pos 29)

  abbrev pub prv_validate_t3 : ValidateCb
  prv_validate_t3 = validate_cb_range after uint16 (pos 30) (pos 39)

  abbrev pub prv_validate_t4 : ValidateCb
  prv_validate_t4 = validate_cb_range after uint32 (pos 40) (pos 49)

  abbrev pub prv_validate_t5 : ValidateCb
  prv_validate_t5 = validate_cb_range after uint64 (pos 50) (pos 59)

  abbrev pub prv_validate_t6 : ValidateCb
  prv_validate_t6 = validate_cb_range after int8 (negsuc 68) (negsuc 59)

  abbrev pub prv_validate_t7 : ValidateCb
  prv_validate_t7 = validate_cb_range after int16 (negsuc 78) (negsuc 69)

  abbrev pub prv_validate_t8 : ValidateCb
  prv_validate_t8 = validate_cb_range after int32 (negsuc 88) (negsuc 79)

  abbrev pub prv_validate_t9 : ValidateCb
  prv_validate_t9 = validate_cb_range after int64 (negsuc 98) (negsuc 89)

abbrev pub validate_t10 : ValidateCb
validate_t10 = validate_cb_exact_size 10

abbrev pub validate_t11 : ValidateCb
validate_t11 = validate_cb_exact_size 8

module _ {Subsys Heap : Type 0} where
  -- The value 25 is valid for t2, and 33 is not.
  unfoldable pub check_t2 : M (State Subsys Heap) (Unit {0})
  check_t2 = do
    valid ← validate_with_key (codes "t2") (25 ∷ [])
    assert valid
    valid ← validate_with_key (codes "t2") (33 ∷ [])
    assert (not valid)

module _ {Subsys Heap : Type 0} (after : ℕ → ℕ) where
  unfoldable pub set_callbacks : M (State Subsys Heap) (Unit {0})
  set_callbacks = do
    set_validate_cb_with_key (codes "t2") (some (prv_validate_t2 after))
    set_validate_cb_with_key (codes "t3") (some (prv_validate_t3 after))
    set_validate_cb_with_key (codes "t4") (some (prv_validate_t4 after))
    set_validate_cb_with_key (codes "t5") (some (prv_validate_t5 after))
    set_validate_cb_with_key (codes "t6") (some (prv_validate_t6 after))
    set_validate_cb_with_key (codes "t7") (some (prv_validate_t7 after))
    set_validate_cb_with_key (codes "t8") (some (prv_validate_t8 after))
    set_validate_cb_with_key (codes "t9") (some (prv_validate_t9 after))
    set_validate_cb_with_id 10 (some validate_t10)
    set_validate_cb_with_id 11 (some validate_t11)

  unfoldable pub validation_main : Platform Subsys Heap → M (State Subsys Heap) ℕ
  unfolding add_t1_t11 set_callbacks check_t2
  validation_main z = do e ← init z; add_t1_t11 z; set_callbacks; load z; check_t2; pure 0
