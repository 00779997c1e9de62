-- ===== src/Settings/Values.antt =====
-- What prv_user_settings_set of library/user_settings/user_settings.c guarantees.
use irnas_usersettings_lib.Base.{
  ℕ, ◌≤◌, ◌<◌, ◌≡◌, Bool, true, false, ◌&&◌, some, [], ◌∷◌, arith, length, take, get_elem?, Bytes,
  bytes_eq, ◌==◌, if◌then◌else◌, ok, err, eio, enomem, einval, Errno, done, ◌>>=◌, pure,
}
use irnas_usersettings_lib.Setting.{UserSetting}
use irnas_usersettings_lib.Platform.{Platform, PlatformLaws, value_sh, changed_sh, full_name}
use irnas_usersettings_lib.State.{State}
use irnas_usersettings_lib.Settings.Change.{
  validated, bool_byte, prv_user_settings_set, prv_set_changed_recently_flag,
}
use irnas_usersettings_lib.Settings.Init.{or_eio}
use irnas_usersettings_lib.Settings.Saving.{IsReady, applied, eio_unless_ok, set_and_save_lem}

-- The test by which prv_user_settings_set takes the new value for the old one.
abbrev pub same_value : UserSetting → Bytes → Bool
same_value us bs = bytes_eq (take (length bs) us.value) bs && length bs == us.value_len

module _ {Subsys Heap : Type 0} (z : Platform Subsys Heap) (p : ℕ) (us : UserSetting) where
  -- The state when a value was given to its callback and saved.
  abbrev pub value_saved : Bytes → State Subsys Heap → State Subsys Heap
  value_saved bs s = record (applied value_sh p us bs s) {
    subsys = (z.settings_save_one (full_name value_sh us.key) bs s.subsys).1;
  }

  -- The state when a flag was.
  abbrev pub flag_saved : Bool → State Subsys Heap → State Subsys Heap
  flag_saved flag s = record (applied changed_sh p us (bool_byte flag ∷ []) s) {
    subsys = (z.settings_save_one (full_name changed_sh us.key) (bool_byte flag ∷ []) s.subsys).1;
  }

module _ {Subsys Heap : Type 0} {z : Platform Subsys Heap} (laws : PlatformLaws z) (p : ℕ)
    (us : UserSetting) (s : State Subsys Heap) (ready : IsReady laws s)
    (here : get_elem? s.settings p ≡ some us) where
  -- In a library in order (IsReady): setting the flag to the value that it has does nothing;
  -- otherwise the flag is stored and saved.
  pub flag_lem :
      (flag : Bool)
      → prv_set_changed_recently_flag z p flag s ≡ (
          if bool_byte flag == bool_byte us.has_changed_recently
          then done (ok tt, s)
          else done (
            eio_unless_ok
                (z.settings_save_one
                  (full_name changed_sh us.key)
                  (bool_byte flag ∷ [])
                  s.subsys).0,
            flag_saved z p us flag s,
          ))
  unfolding prv_set_changed_recently_flag
  flag_lem flag = ground (
    arith,
    ready.loaded,
    set_and_save_lem laws p us s ready here changed_sh (bool_byte flag) [] (omega arith),
  )

  -- A value that does not fit, that is the old one, or that the validation callback rejects, in
  -- this order of precedence, gives -ENOMEM, 0 and -EINVAL, and changes nothing at all.
  pub set_rejects :
      (bs : Bytes)
      → (us.max_size < length bs → prv_user_settings_set z p bs s ≡ done (err enomem, s))
        × (length bs ≤ us.max_size
            → same_value us bs ≡ true
            → prv_user_settings_set z p bs s ≡ done (ok tt, s))
        × (length bs ≤ us.max_size
            → same_value us bs ≡ false
            → validated us.validate_cb us bs ≡ false
            → prv_user_settings_set z p bs s ≡ done (err einval, s))
  unfolding prv_user_settings_set
  set_rejects bs = (
    λ h. ground (arith, ready.loaded),
    λ h e. ground (arith, ready.loaded),
    λ h e v. ground (arith, ready.loaded),
  )

  module _ (b : ℕ) (bs : Bytes) (fits : length (b ∷ bs) ≤ us.max_size)
      (differs : same_value us (b ∷ bs) ≡ false)
      (valid : validated us.validate_cb us (b ∷ bs) ≡ true) where
    -- A new, valid value that cannot be saved gives -EIO, but the setting has it already.
    pub set_unsaved :
        {e : Errno}
        → (z.settings_save_one (full_name value_sh us.key) (b ∷ bs) s.subsys).0 ≡ err e
        → prv_user_settings_set z p (b ∷ bs) s ≡ done (err eio, value_saved z p us (b ∷ bs) s)
    unfolding prv_user_settings_set
    set_unsaved e =
        ground (arith, ready.loaded, set_and_save_lem laws p us s ready here value_sh b bs fits)

    -- One that is saved raises the flag next.
    pub set_saved :
        (z.settings_save_one (full_name value_sh us.key) (b ∷ bs) s.subsys).0 ≡ ok tt
        → prv_user_settings_set z p (b ∷ bs) s
          ≡ (prv_set_changed_recently_flag z p true >>= λ e. or_eio e (pure (ok tt)))
              (value_saved z p us (b ∷ bs) s)
    unfolding prv_user_settings_set
    set_saved e =
        ground (arith, ready.loaded, set_and_save_lem laws p us s ready here value_sh b bs fits)
