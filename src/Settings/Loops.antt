-- ===== src/Settings/Loops.antt =====
-- The rest of the operations of library/user_settings/user_settings.c that change a setting, and
-- the loops over all settings, meet no fault either.
use irnas_usersettings_lib.Base.{
  ℕ, zero, suc, ◌+◌, ◌≤◌, ◌<◌, ◌≡◌, sym, ◌∙◌, Bool, false, not, ◌&&◌, Option, none, some, arith,
  length, take, get_elem?, Bytes, bytes_eq, ltb, ◌==◌, if◌then◌else◌, ok, err, enomem, einval,
  ealready, M, ◌>>=◌, pure,
}
use irnas_usersettings_lib.Setting.{UserSetting}
use irnas_usersettings_lib.Platform.{Platform, PlatformLaws, default_sh}
use irnas_usersettings_lib.State.{State}
use irnas_usersettings_lib.SettingsList.{for_each, unless_returned}
use irnas_usersettings_lib.SettingsList.Iteration.{visit, KeepsList, for_each-visit}
use irnas_usersettings_lib.Settings.Change.{
  validated, set_and_save, prv_user_settings_set, prv_user_settings_set_default,
  prv_set_changed_recently_flag,
}
use irnas_usersettings_lib.Settings.Restore.{prv_settings_restore, restore_each, clear_each}
use irnas_usersettings_lib.Settings.Safety.{
  InOrder, Returns, Returns-pure, Returns-step, Returns-if, Returns-bind, set_and_save-Returns,
  setting_at, flag-Returns, set-Returns,
}

-- The test by which prv_user_settings_set_default takes the new default for the old one.
abbrev pub same_default : UserSetting → Bytes → Bool
same_default us bs =
    length bs == us.default_value_len && bytes_eq bs (take us.default_value_len us.default_value)

module _ {Subsys Heap : Type 0} {z : Platform Subsys Heap} (laws : PlatformLaws z) (n : ℕ) where
  module _ (p : ℕ) (lt : p < n) where
    set_default_step :
        (bs : Bytes) (us : UserSetting) (s : State Subsys Heap)
        → InOrder laws n s
        → get_elem? s.settings p ≡ some us
        → Returns laws n (prv_user_settings_set_default z p bs s)
    unfolding prv_user_settings_set_default
    set_default_step bs us s i here = Returns-step laws n (ground (arith, i.0.loaded)) (
        Returns-if laws n (same_default us bs) (pure (ok tt))
          (if not z.default_overwrite && us.default_is_set
            then pure (err ealready)
            else if ltb us.max_size (length bs)
            then pure (err enomem)
            else if not (validated us.validate_cb us bs)
            then pure (err einval)
            else set_and_save z default_sh us.key bs)
          s (Returns-pure laws n (ok tt) s i)
          λ _.
            Returns-if laws n (not z.default_overwrite && us.default_is_set) (pure (err ealready))
              (if ltb us.max_size (length bs)
                then pure (err enomem)
                else if not (validated us.validate_cb us bs)
                then pure (err einval)
                else set_and_save z default_sh us.key bs)
              s (Returns-pure laws n (err ealready) s i)
              λ _.
                Returns-if laws n (ltb us.max_size (length bs)) (pure (err enomem))
                  (if not (validated us.validate_cb us bs)
                    then pure (err einval)
                    else set_and_save z default_sh us.key bs)
                  s (Returns-pure laws n (err enomem) s i)
                  λ fits.
                    Returns-if laws n (not (validated us.validate_cb us bs)) (pure (err einval))
                      (set_and_save z default_sh us.key bs) s (Returns-pure laws n (err einval) s i)
                      λ _.
                        set_and_save-Returns laws n p lt default_sh bs us s i here (ground arith))

    pub set_default-Returns :
        (bs : Bytes) (s : State Subsys Heap)
        → InOrder laws n s
        → Returns laws n (prv_user_settings_set_default z p bs s)
    set_default-Returns bs s i =
        let (us, here) = setting_at laws n p lt s i in set_default_step bs us s i here

    restore_step :
        (us : UserSetting) (s : State Subsys Heap)
        → InOrder laws n s
        → get_elem? s.settings p ≡ some us
        → Returns laws n (prv_settings_restore z p s)
    unfolding prv_settings_restore
    restore_step us s i here = Returns-step laws n (ground arith) (
        Returns-if laws n (not us.is_set) (pure tt)
          (prv_user_settings_set z p (take us.default_value_len us.default_value) >>= λ _. pure tt)
          s (Returns-pure laws n tt s i)
          λ _.
            Returns-bind laws n
              (prv_user_settings_set z p (take us.default_value_len us.default_value)) _ s
              (set-Returns laws n p lt (take us.default_value_len us.default_value) s i)
              λ r s' i'. Returns-pure laws n tt s' i')

    pub restore-Returns :
        (s : State Subsys Heap) → InOrder laws n s → Returns laws n (prv_settings_restore z p s)
    restore-Returns s i = let (us, here) = setting_at laws n p lt s i in restore_step us s i here

    pub restore_each-Returns :
        (s : State Subsys Heap) → InOrder laws n s → Returns laws n (restore_each z p s)
    unfolding restore_each
    restore_each-Returns s i =
        Returns-bind laws n (prv_settings_restore z p) _ s (restore-Returns s i)
          λ r s' i'. Returns-pure laws n none s' i'

    pub clear_each-Returns :
        (s : State Subsys Heap) → InOrder laws n s → Returns laws n (clear_each z p s)
    unfolding clear_each
    clear_each-Returns s i =
        Returns-bind laws n (prv_set_changed_recently_flag z p false) _ s
          (flag-Returns laws n p lt false s i) λ r s' i'. Returns-pure laws n none s' i'

  module _ {A : Type 0} (body : ℕ → M (State Subsys Heap) (Option A))
      (each : (p : ℕ)
        → p < n
        → (s : State Subsys Heap) → InOrder laws n s
        → Returns laws n (body p s)) where
    body-KeepsList : KeepsList body (InOrder laws n)
    body-KeepsList p s r s' lt i run =
        let (a, t, e, j) = each p (omega (arith, i.1)) s i in
        let same : s' ≡ t = cc in rw same (j, j.1 ∙ sym i.1)

    unless_returned-Returns :
        (r : Option A) (m : M (State Subsys Heap) (Option A)) (s : State Subsys Heap)
        → InOrder laws n s
        → Returns laws n (m s)
        → Returns laws n (unless_returned r m s)
    unless_returned-Returns none m s i rest = rest
    unless_returned-Returns (some a) m s i rest = Returns-pure laws n (some a) s i

    visit-Returns :
        (count p : ℕ) (s : State Subsys Heap)
        → p + count ≤ n
        → InOrder laws n s
        → Returns laws n (visit body count p s)
    unfolding visit
    visit-Returns zero p s h i = Returns-pure laws n none s i
    visit-Returns (suc count) p s h i =
        Returns-bind laws n (body p) _ s (each p (omega arith) s i) λ r s' i'.
          unless_returned-Returns r (visit body count (suc p)) s' i'
            (visit-Returns count (suc p) s' (omega arith) i')

    -- A loop over all settings returns if its body does.
    pub for_each-Returns :
        (s : State Subsys Heap) → InOrder laws n s → Returns laws n (for_each body s)
    for_each-Returns s i =
        Returns-step laws n (for_each-visit body (InOrder laws n) body-KeepsList s i)
          (visit-Returns (length s.settings) 0 s (omega (arith, i.1)) i)
