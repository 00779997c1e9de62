-- ===== src/Settings/SetGet.antt =====
-- Setting a value and reading it back (prv_user_settings_set and prv_user_setting_get of
-- library/user_settings/user_settings.c, and the functions that look a setting up).
use irnas_usersettings_lib.Base.{
  ℕ, ◌≤◌, ◌≡◌, ◌≢◌, refl, ap, ◌∙◌, true, false, some, [], ◌∷◌, ◌++◌, arith, length, get_elem?,
  get_elem?-modify_self, get_elem?-modify_ne, Bytes, bytes_eq, bytes_eq_refl, ok, done, Bool-cases,
  inl, inr,
}
use irnas_usersettings_lib.Setting.{UserSetting}
use irnas_usersettings_lib.Platform.{Platform, PlatformLaws, value_sh, changed_sh, full_name, saved}
use irnas_usersettings_lib.State.{State}
use irnas_usersettings_lib.Settings.Handlers.{with_value, with_changed_flag}
use irnas_usersettings_lib.Settings.Change.{validated, prv_user_settings_set}
use irnas_usersettings_lib.Settings.Saving.{IsReady, eio_unless_ok}
use irnas_usersettings_lib.Settings.Ready.{
  applied-IsReady, applied-settings, applied-on_changes, called,
}
use irnas_usersettings_lib.Settings.Values.{
  same_value, value_saved, flag_saved, flag_lem, set_saved,
}

-- What a successful set of a new value leaves behind.
pub record HasNewValue {Subsys Heap : Type 0} {z : Platform Subsys Heap} (laws : PlatformLaws z)
    (p : ℕ) (us : UserSetting) (bs : Bytes) (s s' : State Subsys Heap) : Type 0 where
  pub setting :
      get_elem? s'.settings p ≡ some (record (with_value bs us) { has_changed_recently = true })
  pub others : (q : ℕ) → p ≢ q → get_elem? s'.settings q ≡ get_elem? s.settings q
  pub on_disk : laws.stored (full_name value_sh us.key) s'.subsys ≡ saved bs
  pub notified :
      s'.on_changes ≡ (s.on_changes ++ called s.global_on_change_cb us) ++ called us.on_change_cb us
  pub ready : IsReady laws s'

-- No flag is stored under the name of a value.
flag_name-ne-value_name :
    (k key : Bytes) → bytes_eq (full_name changed_sh k) (full_name value_sh key) ≡ false
unfolding bytes_eq
flag_name-ne-value_name k key = refl

module _ {Subsys Heap : Type 0} {z : Platform Subsys Heap} (laws : PlatformLaws z) (p : ℕ)
    (us : UserSetting) (s : State Subsys Heap) (ready : IsReady laws s)
    (here : get_elem? s.settings p ≡ some us) (b : ℕ) (bs : Bytes)
    (fits : length (b ∷ bs) ≤ us.max_size)
    (value_ok : (z.settings_save_one (full_name value_sh us.key) (b ∷ bs) s.subsys).0 ≡ ok tt) where
  abbrev pub stored_state : State Subsys Heap
  stored_state = value_saved z p us (b ∷ bs) s

  pub stored-IsReady : IsReady laws stored_state
  stored-IsReady =
      applied-IsReady laws p us s ready here value_sh (full_name value_sh us.key) (b ∷ bs) fits

  pub stored_here : get_elem? stored_state.settings p ≡ some (with_value (b ∷ bs) us)
  stored_here =
      ap (λ l. get_elem? l p) (applied-settings value_sh p us (b ∷ bs) s)
      ∙ get_elem?-modify_self s.settings p (with_value (b ∷ bs)) here

  stored_others : (q : ℕ) → p ≢ q → get_elem? stored_state.settings q ≡ get_elem? s.settings q
  stored_others q ne =
      ap (λ l. get_elem? l q) (applied-settings value_sh p us (b ∷ bs) s)
      ∙ get_elem?-modify_ne s.settings p q (with_value (b ∷ bs)) ne

  stored_on_disk : laws.stored (full_name value_sh us.key) stored_state.subsys ≡ saved (b ∷ bs)
  stored_on_disk =
      laws.save_stored (full_name value_sh us.key) (b ∷ bs) (full_name value_sh us.key) s.subsys
        value_ok
      ∙ rw (bytes_eq_refl (full_name value_sh us.key))

  -- The flag is up already: nothing is left to do.
  pub stored-HasNewValue :
      us.has_changed_recently ≡ true → HasNewValue laws p us (b ∷ bs) s stored_state
  stored-HasNewValue up = record {
    setting =
        stored_here
        ∙ ap (λ f. some (record (with_value (b ∷ bs) us) { has_changed_recently = f })) up;
    others = stored_others;
    on_disk = stored_on_disk;
    notified = applied-on_changes p us (b ∷ bs) s ready.loaded;
    ready = stored-IsReady;
  }

  abbrev pub flagged_state : State Subsys Heap
  flagged_state = flag_saved z p (with_value (b ∷ bs) us) true stored_state

  pub flagged-HasNewValue :
      (z.settings_save_one (full_name changed_sh us.key) (1 ∷ []) stored_state.subsys).0 ≡ ok tt
      → HasNewValue laws p us (b ∷ bs) s flagged_state
  flagged-HasNewValue flag_ok = record {
    setting = get_elem?-modify_self stored_state.settings p (with_changed_flag true) stored_here;
    others = λ q ne.
        get_elem?-modify_ne stored_state.settings p q (with_changed_flag true) ne
        ∙ stored_others q ne;
    on_disk =
        laws.save_stored (full_name changed_sh us.key) (1 ∷ []) (full_name value_sh us.key)
          stored_state.subsys flag_ok
        ∙ rw (flag_name-ne-value_name us.key us.key) stored_on_disk;
    notified = applied-on_changes p us (b ∷ bs) s ready.loaded;
    ready =
        applied-IsReady laws p (with_value (b ∷ bs) us) stored_state stored-IsReady stored_here
          changed_sh (full_name changed_sh us.key) (1 ∷ []) (omega arith);
  }

  module _ (differs : same_value us (b ∷ bs) ≡ false)
      (valid : validated us.validate_cb us (b ∷ bs) ≡ true) where
    pub set_flag_up :
        us.has_changed_recently ≡ true
        → prv_user_settings_set z p (b ∷ bs) s ≡ done (ok tt, stored_state)
    set_flag_up up =
        set_saved laws p us s ready here b bs fits differs valid value_ok
        ∙ ground (
          arith,
          flag_lem laws p (with_value (b ∷ bs) us) stored_state stored-IsReady stored_here true,
        )

    pub set_flag_down :
        us.has_changed_recently ≡ false
        → prv_user_settings_set z p (b ∷ bs) s
          ≡ done (
            eio_unless_ok
                (z.settings_save_one (full_name changed_sh us.key) (1 ∷ []) stored_state.subsys).0,
            flagged_state,
          )
    set_flag_down down =
        set_saved laws p us s ready here b bs fits differs valid value_ok
        ∙ ground (
          arith,
          flag_lem laws p (with_value (b ∷ bs) us) stored_state stored-IsReady stored_here true,
        )

    pub set-HasNewValue :
        (z.settings_save_one (full_name changed_sh us.key) (1 ∷ []) stored_state.subsys).0 ≡ ok tt
        → (s' : State Subsys Heap) × (prv_user_settings_set z p (b ∷ bs) s ≡ done (ok tt, s'))
          × HasNewValue laws p us (b ∷ bs) s s'
    set-HasNewValue flag_ok = elim (Bool-cases us.has_changed_recently) [
      | inl up ↦ (stored_state, set_flag_up up, stored-HasNewValue up)
      | inr down ↦ (flagged_state, set_flag_down down ∙ rw flag_ok, flagged-HasNewValue flag_ok)
    ]
