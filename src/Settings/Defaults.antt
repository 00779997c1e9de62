-- ===== src/Settings/Defaults.antt =====
-- Default values: who may set them, and what restoring them does
-- (library/user_settings/user_settings.c).
use irnas_usersettings_lib.Base.{
  ℕ, ◌≤◌, ◌≡◌, true, false, not, ◌&&◌, some, [], ◌∷◌, arith, length, take, get_elem?, modify, Bytes,
  ltb, if◌then◌else◌, ok, err, ealready, enomem, einval, done, Bool-cases, inl, inr, ◌⊎◌,
}
use irnas_usersettings_lib.Setting.{UserSetting}
use irnas_usersettings_lib.Platform.{
  Platform, PlatformLaws, default_sh, value_sh, changed_sh, full_name,
}
use irnas_usersettings_lib.State.{State}
use irnas_usersettings_lib.Settings.Handlers.{with_default}
use irnas_usersettings_lib.Settings.Change.{validated, prv_user_settings_set_default}
use irnas_usersettings_lib.Settings.Restore.{prv_settings_restore}
use irnas_usersettings_lib.Settings.Saving.{IsReady, eio_unless_ok, set_and_save_lem}
use irnas_usersettings_lib.Settings.Loops.{same_default}
use irnas_usersettings_lib.Settings.SetGet.{stored_state, set-HasNewValue}
use irnas_usersettings_lib.Settings.RoundTrip.{Holds, set_ok-Holds}
use irnas_usersettings_lib.Settings.Values.{same_value, set_rejects}

module _ {Subsys Heap : Type 0} {z : Platform Subsys Heap} (laws : PlatformLaws z) (p : ℕ)
    (us : UserSetting) (s : State Subsys Heap) (ready : IsReady laws s)
    (here : get_elem? s.settings p ≡ some us) where
  pub set_default_lem :
      (b : ℕ) (bs : Bytes)
      → prv_user_settings_set_default z p (b ∷ bs) s ≡ (
          if same_default us (b ∷ bs)
          then done (ok tt, s)
          else if not z.default_overwrite && us.default_is_set
          then done (err ealready, s)
          else if ltb us.max_size (length (b ∷ bs))
          then done (err enomem, s)
          else if not (validated us.validate_cb us (b ∷ bs))
          then done (err einval, s)
          else let r = z.settings_save_one (full_name default_sh us.key) (b ∷ bs) s.subsys in
            done (
              eio_unless_ok r.0,
              record s { settings = modify s.settings p (with_default (b ∷ bs)); subsys = r.1 },
            ))
  unfolding prv_user_settings_set_default
  set_default_lem b bs =
      ground (arith, ready.loaded, set_and_save_lem laws p us s ready here default_sh b bs)

  -- In a library in order (IsReady): where overwriting is off, a default that is set stays as it
  -- is, whatever is asked.
  pub default_is_final :
      (bs : Bytes)
      → z.default_overwrite ≡ false
      → us.default_is_set ≡ true
      → (prv_user_settings_set_default z p bs s ≡ done (ok tt, s))
        ⊎ (prv_user_settings_set_default z p bs s ≡ done (err ealready, s))
  unfolding prv_user_settings_set_default
  default_is_final bs off set = elim (Bool-cases (same_default us bs)) [
    | inl same ↦ inl (ground (arith, ready.loaded))
    | inr differs ↦ inr (ground (arith, ready.loaded))
  ]

  -- Restoring a setting without a value does nothing.
  pub restore_unset : us.is_set ≡ false → prv_settings_restore z p s ≡ done (tt, s)
  unfolding prv_settings_restore
  restore_unset unset = ground arith

  -- In a library in order (IsReady): restoring a setting with a value and a default that is
  -- accepted and can be saved leaves the setting with its default as its value.
  pub restore_to_default :
      (b : ℕ) (bs : Bytes)
      → us.is_set ≡ true
      → take us.default_value_len us.default_value ≡ b ∷ bs
      → (fits : length (b ∷ bs) ≤ us.max_size)
        (value_ok : (z.settings_save_one (full_name value_sh us.key) (b ∷ bs) s.subsys).0 ≡ ok tt)
      → validated us.validate_cb us (b ∷ bs) ≡ true
      → (z.settings_save_one
          (full_name changed_sh us.key)
          (1 ∷ [])
          (stored_state laws p us s ready here b bs fits value_ok).subsys).0
        ≡ ok tt
      → (s' : State Subsys Heap) × (prv_settings_restore z p s ≡ done (tt, s'))
        × Holds laws p us (b ∷ bs) s'
  unfolding prv_settings_restore
  restore_to_default b bs set is_default fits value_ok valid flag_ok =
      elim (Bool-cases (same_value us (b ∷ bs))) [
        | inl same ↦
            let e = (set_rejects laws p us s ready here (b ∷ bs)).1 fits same in
            (s, ground arith, set_ok-Holds laws p us s s ready here b bs e)
        | inr differs ↦
            let (s', e, h) =
              set-HasNewValue laws p us s ready here b bs fits value_ok differs valid flag_ok in
            (s', ground arith, set_ok-Holds laws p us s s' ready here b bs e)
      ]
