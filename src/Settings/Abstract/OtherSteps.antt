-- ===== src/Settings/Abstract/OtherSteps.antt =====
-- What one call that sets a default or a flag (library/user_settings/user_settings.c) does to the
-- table of entries, where the storage saves everything.
use irnas_usersettings_lib.Base.{
  ℕ, ◌≡◌, refl, ap, ◌∙◌, sym, arith, Bool, true, false, not, ◌&&◌, some, [], ◌∷◌, length, modify,
  get_elem?, Bytes, ltb, ◌==◌, if◌then◌else◌, ok, err, enomem, einval, ealready, Bool-cases, inl,
  inr,
}
use irnas_usersettings_lib.Setting.{UserSetting}
use irnas_usersettings_lib.Platform.{Platform, PlatformLaws, default_sh, changed_sh, full_name}
use irnas_usersettings_lib.State.{State}
use irnas_usersettings_lib.Settings.Handlers.{with_default, with_changed_flag}
use irnas_usersettings_lib.Settings.Change.{
  validated, bool_byte, prv_user_settings_set_default, prv_set_changed_recently_flag,
}
use irnas_usersettings_lib.Settings.Saving.{IsReady, eio_unless_ok}
use irnas_usersettings_lib.Settings.Ready.{applied-IsReady}
use irnas_usersettings_lib.Settings.Values.{flag_lem, flag_saved}
use irnas_usersettings_lib.Settings.Loops.{same_default}
use irnas_usersettings_lib.Settings.Defaults.{set_default_lem}
use irnas_usersettings_lib.Settings.Abstract.{entry, is_some, put_default, put_flag}
use irnas_usersettings_lib.Settings.Abstract.Stored.{IsStored, applied-IsStored}
use irnas_usersettings_lib.Settings.Abstract.Entries.{
  map-modify_at, is_value-same_default, is_some-default, accepts-validated, entry-with_default,
}
use irnas_usersettings_lib.Settings.Abstract.Steps.{Steps, sound, kept}

module _ {Subsys Heap : Type 0} {z : Platform Subsys Heap} (laws : PlatformLaws z)
    (saves : (name bs : Bytes) (sub : Subsys) → (z.settings_save_one name bs sub).0 ≡ ok tt) (p : ℕ)
    (us : UserSetting) (s : State Subsys Heap) (ready : IsReady laws s)
    (here : get_elem? s.settings p ≡ some us) (is_stored : IsStored laws s) where
  module _ (b : ℕ) (bs : Bytes) where
    put_default_lem : put_default z.default_overwrite (b ∷ bs) (entry us) ≡ (
        if same_default us (b ∷ bs)
        then entry us
        else if not z.default_overwrite && us.default_is_set
        then entry us
        else if ltb us.max_size (length (b ∷ bs))
        then entry us
        else if not (validated us.validate_cb us (b ∷ bs))
        then entry us
        else record (entry us) { default = some (b ∷ bs) })
    unfolding entry
    put_default_lem =
        let rest = λ (d v : Bool).
          if not z.default_overwrite && d
          then entry us
          else if ltb us.max_size (length (b ∷ bs))
          then entry us
          else if not v
          then entry us
          else record (entry us) { default = some (b ∷ bs) } in
        ap
          (λ t.
            if t then entry us else rest (is_some (entry us).default) ((entry us).accepts (b ∷ bs)))
          (is_value-same_default us (sound laws saves p us s ready here is_stored) b bs)
        ∙ ap
            (λ d.
              if same_default us (b ∷ bs) then entry us else rest d ((entry us).accepts (b ∷ bs)))
            (is_some-default us)
        ∙ ap (λ v. if same_default us (b ∷ bs) then entry us else rest us.default_is_set v)
            (accepts-validated us (b ∷ bs))

    default_new :
        same_default us (b ∷ bs) ≡ false
        → (not z.default_overwrite && us.default_is_set) ≡ false
        → ltb us.max_size (length (b ∷ bs)) ≡ false
        → validated us.validate_cb us (b ∷ bs) ≡ true
        → Steps laws p
            (put_default z.default_overwrite (b ∷ bs))
            s
            (prv_user_settings_set_default z p (b ∷ bs) s)
    default_new differs free fits valid = record {
      status =
          eio_unless_ok (z.settings_save_one (full_name default_sh us.key) (b ∷ bs) s.subsys).0;
      state = record s {
        settings = modify s.settings p (with_default (b ∷ bs));
        subsys = (z.settings_save_one (full_name default_sh us.key) (b ∷ bs) s.subsys).1;
      };
      run = set_default_lem laws p us s ready here b bs ∙ rw (differs, free, fits, valid) refl;
      entries =
          map-modify_at entry (with_default (b ∷ bs)) (put_default z.default_overwrite (b ∷ bs))
            s.settings p here
            (entry-with_default us (b ∷ bs)
              ∙ sym (put_default_lem ∙ rw (differs, free, fits, valid) refl));
      ready =
          applied-IsReady laws p us s ready here default_sh (full_name default_sh us.key) (b ∷ bs)
            (ground arith);
      stored =
          applied-IsStored laws p us s ready here default_sh b bs
            (saves (full_name default_sh us.key) (b ∷ bs) s.subsys) is_stored;
    }

    pub set_default-Steps :
        Steps laws p
          (put_default z.default_overwrite (b ∷ bs))
          s
          (prv_user_settings_set_default z p (b ∷ bs) s)
    set_default-Steps =
        let run = set_default_lem laws p us s ready here b bs in
        elim (Bool-cases (same_default us (b ∷ bs))) [
          | inl same ↦
              kept laws saves p us s ready here is_stored _ _ (ok tt) (run ∙ rw same refl)
                (put_default_lem ∙ rw same refl)
          | inr differs ↦ elim (Bool-cases (not z.default_overwrite && us.default_is_set)) [
            | inl final ↦
                kept laws saves p us s ready here is_stored _ _ (err ealready)
                  (run ∙ rw (differs, final) refl) (put_default_lem ∙ rw (differs, final) refl)
            | inr free ↦ elim (Bool-cases (ltb us.max_size (length (b ∷ bs)))) [
              | inl long ↦
                  kept laws saves p us s ready here is_stored _ _ (err enomem)
                    (run ∙ rw (differs, free, long) refl)
                    (put_default_lem ∙ rw (differs, free, long) refl)
              | inr fits ↦ elim (Bool-cases (validated us.validate_cb us (b ∷ bs))) [
                | inl valid ↦ default_new differs free fits valid
                | inr invalid ↦
                    kept laws saves p us s ready here is_stored _ _ (err einval)
                      (run ∙ rw (differs, free, fits, invalid) refl)
                      (put_default_lem ∙ rw (differs, free, fits, invalid) refl)
              ]
            ]
          ]
        ]

  same_flag :
      (f : Bool)
      → (bool_byte f == bool_byte us.has_changed_recently) ≡ true
      → put_flag f (entry us) ≡ entry us
  unfolding entry
  same_flag f same =
      ap (λ g. record (entry us) { has_changed = g }) (by_flags f us.has_changed_recently same)
    where
      by_flags : (f g : Bool) → (bool_byte f == bool_byte g) ≡ true → f ≡ g
      by_flags true true e = refl
      by_flags false false e = refl
      by_flags true false e = cc
      by_flags false true e = cc

  flag_byte :
      (f : Bool) (u : UserSetting)
      → entry (with_changed_flag (not (bool_byte f == 0)) u) ≡ put_flag f (entry u)
  unfolding entry
  flag_byte true u = refl
  flag_byte false u = refl

  pub flag-Steps : (f : Bool) → Steps laws p (put_flag f) s (prv_set_changed_recently_flag z p f s)
  flag-Steps f =
      let run = flag_lem laws p us s ready here f in
      elim (Bool-cases (bool_byte f == bool_byte us.has_changed_recently)) [
        | inl same ↦
            kept laws saves p us s ready here is_stored _ _ (ok tt) (run ∙ rw same refl)
              (same_flag f same)
        | inr differs ↦ record {
          status =
              eio_unless_ok
                (z.settings_save_one (full_name changed_sh us.key) (bool_byte f ∷ []) s.subsys).0;
          state = flag_saved z p us f s;
          run = run ∙ rw differs refl;
          entries =
              map-modify_at entry (with_changed_flag (not (bool_byte f == 0))) (put_flag f)
                s.settings p here (flag_byte f us);
          ready =
              applied-IsReady laws p us s ready here changed_sh (full_name changed_sh us.key)
                (bool_byte f ∷ []) (omega arith);
          stored =
              applied-IsStored laws p us s ready here changed_sh (bool_byte f) []
                (saves (full_name changed_sh us.key) (bool_byte f ∷ []) s.subsys) is_stored;
        }
      ]
