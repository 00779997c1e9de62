-- ===== src/Settings/Abstract/Steps.antt =====
-- What one call of a setter of library/user_settings/user_settings.c does to the table of entries,
-- where the storage saves everything.
use irnas_usersettings_lib.Base.{
  ℕ, ◌≤◌, ◌≡◌, refl, ap, ◌∙◌, sym, arith, true, false, not, some, [], ◌∷◌, map, length, modify,
  get_elem?, get_elem?-map, All-get, Bytes, ltb, if◌then◌else◌, ok, err, enomem, einval, Status,
  Outcome, done, Bool-cases, inl, inr,
}
use irnas_usersettings_lib.Setting.{UserSetting, IsSound}
use irnas_usersettings_lib.Platform.{Platform, PlatformLaws, value_sh, changed_sh, full_name}
use irnas_usersettings_lib.State.{State}
use irnas_usersettings_lib.Settings.Handlers.{with_value, with_changed_flag}
use irnas_usersettings_lib.Settings.Change.{validated, prv_user_settings_set}
use irnas_usersettings_lib.Settings.Saving.{IsReady}
use irnas_usersettings_lib.Settings.Ready.{applied-settings}
use irnas_usersettings_lib.Settings.Values.{same_value, set_rejects}
use irnas_usersettings_lib.Settings.SetGet.{
  stored_state, flagged_state, stored_here, stored-IsReady, flagged-HasNewValue, set_flag_up,
  set_flag_down,
}
use irnas_usersettings_lib.Settings.Abstract.{Entry, entry, put_value}
use irnas_usersettings_lib.Settings.Abstract.Stored.{IsStored, applied-IsStored}
use irnas_usersettings_lib.Settings.Abstract.Entries.{
  map-modify_at, modify-modify, modify_kept, is_value-same_value, accepts-validated,
  entry-with_value,
}

-- A call that returns, changes the entry at `p` by `g`, and leaves the library in order.
pub record Steps {Subsys Heap : Type 0} {z : Platform Subsys Heap} (laws : PlatformLaws z) (p : ℕ)
    (g : Entry → Entry) (s : State Subsys Heap) (o : Outcome (Status × State Subsys Heap))
    : Type 0 where
  pub status : Status
  pub state : State Subsys Heap
  pub run : o ≡ done (status, state)
  pub entries : map entry state.settings ≡ modify (map entry s.settings) p g
  pub ready : IsReady laws state
  pub stored : IsStored laws state

module _ {Subsys Heap : Type 0} {z : Platform Subsys Heap} (laws : PlatformLaws z)
    (saves : (name bs : Bytes) (sub : Subsys) → (z.settings_save_one name bs sub).0 ≡ ok tt) (p : ℕ)
    (us : UserSetting) (s : State Subsys Heap) (ready : IsReady laws s)
    (here : get_elem? s.settings p ≡ some us) (is_stored : IsStored laws s) where
  pub sound : IsSound us
  sound = All-get IsSound s.settings p ready.well_formed.sound here

  pub kept :
      (g : Entry → Entry) (o : Outcome (Status × State Subsys Heap)) (r : Status)
      → o ≡ done (r, s)
      → g (entry us) ≡ entry us
      → Steps laws p g s o
  kept g o r run same = record {
    status = r;
    state = s;
    run = run;
    entries =
        sym (modify_kept (map entry s.settings) p g (get_elem?-map entry s.settings p here) same);
    ready = ready;
    stored = is_stored;
  }

  module _ (b : ℕ) (bs : Bytes) where
    put_value_lem : put_value (b ∷ bs) (entry us) ≡ (
        if ltb us.max_size (length (b ∷ bs))
        then entry us
        else if same_value us (b ∷ bs)
        then entry us
        else if not (validated us.validate_cb us (b ∷ bs))
        then entry us
        else record (entry us) { value = some (b ∷ bs); has_changed = true })
    unfolding entry
    put_value_lem =
        ap
          (λ t.
            if ltb us.max_size (length (b ∷ bs))
            then entry us
            else if t
            then entry us
            else if not ((entry us).accepts (b ∷ bs))
            then entry us
            else record (entry us) { value = some (b ∷ bs); has_changed = true })
          (is_value-same_value us sound b bs)
        ∙ ap
            (λ v.
              if ltb us.max_size (length (b ∷ bs))
              then entry us
              else if same_value us (b ∷ bs)
              then entry us
              else if not v
              then entry us
              else record (entry us) { value = some (b ∷ bs); has_changed = true })
            (accepts-validated us (b ∷ bs))

    module _ (fits : length (b ∷ bs) ≤ us.max_size) (differs : same_value us (b ∷ bs) ≡ false)
        (valid : validated us.validate_cb us (b ∷ bs) ≡ true)
        (new : put_value (b ∷ bs) (entry us)
          ≡ record (entry us) { value = some (b ∷ bs); has_changed = true }) where
      value_ok : (z.settings_save_one (full_name value_sh us.key) (b ∷ bs) s.subsys).0 ≡ ok tt
      value_ok = saves (full_name value_sh us.key) (b ∷ bs) s.subsys

      put_new :
          (f : UserSetting → UserSetting)
          → entry (f us) ≡ record (entry us) { value = some (b ∷ bs); has_changed = true }
          → map entry (modify s.settings p f) ≡ modify (map entry s.settings) p (put_value (b ∷ bs))
      put_new f e = map-modify_at entry f (put_value (b ∷ bs)) s.settings p here (e ∙ sym new)

      -- The flag is up already.
      up_new :
          us.has_changed_recently ≡ true
          → entry (with_value (b ∷ bs) us)
            ≡ record (entry us) { value = some (b ∷ bs); has_changed = true }
      up_new up =
          ap (λ f. entry (record (with_value (b ∷ bs) us) { has_changed_recently = f })) up
          ∙ entry-with_value us (b ∷ bs)

      abbrev stored_now : State Subsys Heap
      stored_now = stored_state laws p us s ready here b bs fits value_ok

      value-IsStored : IsStored laws stored_now
      value-IsStored = applied-IsStored laws p us s ready here value_sh b bs value_ok is_stored

      set_new : Steps laws p (put_value (b ∷ bs)) s (prv_user_settings_set z p (b ∷ bs) s)
      set_new = elim (Bool-cases us.has_changed_recently) [
        | inl up ↦ record {
          status = ok tt;
          state = stored_state laws p us s ready here b bs fits value_ok;
          run = set_flag_up laws p us s ready here b bs fits value_ok differs valid up;
          entries =
              ap (map entry) (applied-settings value_sh p us (b ∷ bs) s)
              ∙ put_new (with_value (b ∷ bs)) (up_new up);
          ready = stored-IsReady laws p us s ready here b bs fits value_ok;
          stored = value-IsStored;
        }
        | inr down ↦ record {
          status = _;
          state = flagged_state laws p us s ready here b bs fits value_ok;
          run = set_flag_down laws p us s ready here b bs fits value_ok differs valid down;
          entries =
              ap (λ l. map entry (modify l p (with_changed_flag true)))
                (applied-settings value_sh p us (b ∷ bs) s)
              ∙ ap (map entry)
                  (modify-modify s.settings p (with_value (b ∷ bs)) (with_changed_flag true))
              ∙ put_new (λ u. with_changed_flag true (with_value (b ∷ bs) u))
                  (entry-with_value us (b ∷ bs));
          ready =
              (flagged-HasNewValue laws p us s ready here b bs fits value_ok
                (saves (full_name changed_sh us.key) (1 ∷ []) _)).ready;
          stored =
              applied-IsStored laws p (with_value (b ∷ bs) us) stored_now
                (stored-IsReady laws p us s ready here b bs fits value_ok)
                (stored_here laws p us s ready here b bs fits value_ok) changed_sh 1 []
                (saves (full_name changed_sh us.key) (1 ∷ []) _) value-IsStored;
        }
      ]

    pub set-Steps : Steps laws p (put_value (b ∷ bs)) s (prv_user_settings_set z p (b ∷ bs) s)
    set-Steps =
        let rejects = set_rejects laws p us s ready here (b ∷ bs) in
        elim (Bool-cases (ltb us.max_size (length (b ∷ bs)))) [
          | inl long ↦
              kept _ _ (err enomem) (rejects.0 (ground arith)) (put_value_lem ∙ rw long refl)
          | inr fits ↦ elim (Bool-cases (same_value us (b ∷ bs))) [
            | inl same ↦
                kept _ _ (ok tt) (rejects.1 (ground arith) same)
                  (put_value_lem ∙ rw (fits, same) refl)
            | inr differs ↦ elim (Bool-cases (validated us.validate_cb us (b ∷ bs))) [
              | inl valid ↦
                  set_new (ground arith) differs valid
                    (put_value_lem ∙ rw (fits, differs, valid) refl)
              | inr invalid ↦
                  kept _ _ (err einval) (rejects.2 (ground arith) differs invalid)
                    (put_value_lem ∙ rw (fits, differs, invalid) refl)
            ]
          ]
        ]
