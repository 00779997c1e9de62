-- ===== src/Settings/Safety.antt =====
-- No operation of library/user_settings/user_settings.c on an existing setting meets a fault, and
-- each keeps the library in order.
use irnas_usersettings_lib.Base.{
  ℕ, ◌≤◌, ◌<◌, ◌≡◌, refl, ap, ◌∙◌, Bool, true, false, not, some, [], ◌∷◌, arith, length, get_elem?,
  Bytes, ltb, ◌==◌, if◌then◌else◌, Status, ok, err, eio, enomem, einval, Outcome, done, M, ◌>>=◌,
  pure, bind_done, length-modify, get_elem?_of_lt,
}
use irnas_usersettings_lib.Setting.{UserSetting}
use irnas_usersettings_lib.Platform.{
  Platform, PlatformLaws, Handler, value_sh, changed_sh, full_name,
}
use irnas_usersettings_lib.State.{State}
use irnas_usersettings_lib.Settings.Init.{or_eio}
use irnas_usersettings_lib.Settings.Change.{
  validated, bool_byte, set_and_save, prv_user_settings_set, prv_set_changed_recently_flag,
}
use irnas_usersettings_lib.Settings.Saving.{IsReady, room, set_and_save_lem, set_and_save-nil}
use irnas_usersettings_lib.Settings.Ready.{saved-IsReady, applied-IsReady, applied-settings, change}
use irnas_usersettings_lib.Settings.Values.{same_value}

module _ {Subsys Heap : Type 0} {z : Platform Subsys Heap} (laws : PlatformLaws z) (n : ℕ) where
  -- In order, with `n` settings.
  abbrev pub InOrder : State Subsys Heap → Type 0
  InOrder s = IsReady laws s × (length s.settings ≡ n)

  -- It returns, and the library is in order afterwards, with as many settings.
  abbrev pub Returns : {A : Type 0} → Outcome (A × State Subsys Heap) → Type 0
  Returns {A} o = (a : A) × (s' : State Subsys Heap) × (o ≡ done (a, s')) × InOrder s'

  pub Returns-pure : {A : Type 0} (a : A) (s : State Subsys Heap) → InOrder s → Returns (pure a s)
  Returns-pure a s i = (a, s, refl, i)

  pub Returns-step :
      {A : Type 0} {o o' : Outcome (A × State Subsys Heap)} → o ≡ o' → Returns o' → Returns o
  Returns-step e (a, s', e', i) = (a, s', e ∙ e', i)

  pub Returns-if :
      {A : Type 0} (b : Bool) (j k : M (State Subsys Heap) A) (s : State Subsys Heap)
      → Returns (j s)
      → (b ≡ false → Returns (k s))
      → Returns ((if b then j else k) s)
  Returns-if true j k s rj rk = rj
  Returns-if false j k s rj rk = rk refl

  pub Returns-bind :
      {A B : Type 0} (m : M (State Subsys Heap) A) (k : A → M (State Subsys Heap) B)
      (s : State Subsys Heap)
      → Returns (m s)
      → ((a : A) (s' : State Subsys Heap) → InOrder s' → Returns (k a s'))
      → Returns ((m >>= k) s)
  Returns-bind m k s (a, s', e, i) rest = Returns-step (bind_done m s k e) (rest a s' i)

  pub Returns-or_eio :
      (r : Status) (m : M (State Subsys Heap) Status) (s : State Subsys Heap)
      → InOrder s
      → Returns (m s)
      → Returns (or_eio r m s)
  Returns-or_eio (ok t) m s i rest = rest
  Returns-or_eio (err e) m s i rest = Returns-pure (err eio) s i

  module _ (p : ℕ) (lt : p < n) where
    -- Handing data that fits to a callback and saving it.
    pub set_and_save-Returns :
        (h : Handler) (bs : Bytes) (us : UserSetting) (s : State Subsys Heap)
        → InOrder s
        → get_elem? s.settings p ≡ some us
        → length bs ≤ room h us
        → Returns (set_and_save z h us.key bs s)
    set_and_save-Returns h [] us s i here fits = (
      _,
      _,
      set_and_save-nil laws p us s i.0 here h,
      (saved-IsReady laws p us s i.0 here (full_name h us.key) [], i.1),
    )
    set_and_save-Returns h (b ∷ bs) us s i here fits = (
      _,
      _,
      set_and_save_lem laws p us s i.0 here h b bs fits,
      (
        applied-IsReady laws p us s i.0 here h (full_name h us.key) (b ∷ bs) fits,
        ap length (applied-settings h p us (b ∷ bs) s)
            ∙ length-modify s.settings p (change h (b ∷ bs))
            ∙ i.1,
      ),
    )

    -- Every position below the length holds a setting.
    pub setting_at :
        (s : State Subsys Heap)
        → InOrder s
        → (us : UserSetting) × (get_elem? s.settings p ≡ some us)
    setting_at s i = get_elem?_of_lt s.settings p (omega arith)

    flag_step :
        (flag : Bool) (us : UserSetting) (s : State Subsys Heap)
        → InOrder s
        → get_elem? s.settings p ≡ some us
        → Returns (prv_set_changed_recently_flag z p flag s)
    unfolding prv_set_changed_recently_flag
    flag_step flag us s i here = Returns-step (ground (arith, i.0.loaded)) (
        Returns-if (bool_byte flag == bool_byte us.has_changed_recently) (pure (ok tt))
          (set_and_save z changed_sh us.key (bool_byte flag ∷ [])) s (Returns-pure (ok tt) s i)
          (λ _. set_and_save-Returns changed_sh (bool_byte flag ∷ []) us s i here (omega arith)))

    pub flag-Returns :
        (flag : Bool) (s : State Subsys Heap)
        → InOrder s
        → Returns (prv_set_changed_recently_flag z p flag s)
    flag-Returns flag s i = let (us, here) = setting_at s i in flag_step flag us s i here

    -- The part of prv_user_settings_set after its checks.
    abbrev store_value : UserSetting → Bytes → M (State Subsys Heap) Status
    store_value us bs = set_and_save z value_sh us.key bs >>= λ e.
        or_eio e (prv_set_changed_recently_flag z p true >>= λ e. or_eio e (pure (ok tt)))

    store_value-Returns :
        (bs : Bytes) (us : UserSetting) (s : State Subsys Heap)
        → InOrder s
        → get_elem? s.settings p ≡ some us
        → length bs ≤ us.max_size
        → Returns (store_value us bs s)
    store_value-Returns bs us s i here fits =
        Returns-bind (set_and_save z value_sh us.key bs) _ s
          (set_and_save-Returns value_sh bs us s i here fits)
          λ r s' i'. Returns-or_eio r _ s' i' (
            Returns-bind (prv_set_changed_recently_flag z p true) _ s' (flag-Returns true s' i')
              λ r s' i'. Returns-or_eio r (pure (ok tt)) s' i' (Returns-pure (ok tt) s' i'))

    set_step :
        (bs : Bytes) (us : UserSetting) (s : State Subsys Heap)
        → InOrder s
        → get_elem? s.settings p ≡ some us
        → Returns (prv_user_settings_set z p bs s)
    unfolding prv_user_settings_set
    set_step bs us s i here = Returns-step (ground (arith, i.0.loaded)) (
        Returns-if (ltb us.max_size (length bs)) (pure (err enomem))
          (if same_value us bs
            then pure (ok tt)
            else if not (validated us.validate_cb us bs)
            then pure (err einval)
            else store_value us bs)
          s (Returns-pure (err enomem) s i)
          λ fits.
            Returns-if (same_value us bs) (pure (ok tt))
              (if not (validated us.validate_cb us bs)
                then pure (err einval)
                else store_value us bs)
              s (Returns-pure (ok tt) s i)
              λ _.
                Returns-if (not (validated us.validate_cb us bs)) (pure (err einval))
                  (store_value us bs) s (Returns-pure (err einval) s i)
                  λ _. store_value-Returns bs us s i here (ground arith))

    -- Setting any data at a setting of the list returns, and keeps the library in order.
    pub set-Returns :
        (bs : Bytes) (s : State Subsys Heap) → InOrder s → Returns (prv_user_settings_set z p bs s)
    set-Returns bs s i = let (us, here) = setting_at s i in set_step bs us s i here
