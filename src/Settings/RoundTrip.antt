-- ===== src/Settings/RoundTrip.antt =====
-- What user_settings_get_with_* returns after user_settings_set_with_* returned 0
-- (library/user_settings/user_settings.c).
use irnas_usersettings_lib.Base.{
  ℕ, ◌≤◌, ◌≡◌, refl, subst, ◌∙◌, ◌⊎◌, Errno, true, false, some, [], ◌∷◌, arith, length, take,
  take-append, get_elem?, All-get, Bytes, bytes_eq, bytes_eq-true, ltb, ok, err, done, Bool-cases,
  Result-cases, inl, inr,
}
use irnas_usersettings_lib.Setting.{UserSetting, IsSound}
use irnas_usersettings_lib.Platform.{Platform, PlatformLaws, value_sh, changed_sh, full_name}
use irnas_usersettings_lib.State.{State}
use irnas_usersettings_lib.SettingsList.{get_by_key, get_by_id}
use irnas_usersettings_lib.SettingsList.Lookup.{get_by_key_iff, get_by_id_iff}
use irnas_usersettings_lib.Settings.Change.{
  validated, prv_user_settings_set, set_with_key, set_with_id,
}
use irnas_usersettings_lib.Settings.Query.{prv_user_setting_get, get_with_key, get_with_id}
use irnas_usersettings_lib.Settings.Saving.{IsReady}
use irnas_usersettings_lib.Settings.Values.{same_value, set_rejects, set_unsaved}
use irnas_usersettings_lib.Settings.SetGet.{
  stored_state, HasNewValue, stored-HasNewValue, flagged-HasNewValue, set_flag_up, set_flag_down,
}

-- The setting is set, and the bytes in use are the given ones.
pub record HasValue (bs : Bytes) (us : UserSetting) : Type 0 where
  pub set : us.is_set ≡ true
  pub bytes : take us.value_len us.value ≡ bs

-- At position p stands the setting of the same ID and key, with the given bytes.
pub record Holds {Subsys Heap : Type 0} {z : Platform Subsys Heap} (laws : PlatformLaws z) (p : ℕ)
    (old : UserSetting) (bs : Bytes) (s : State Subsys Heap) : Type 0 where
  pub us : UserSetting
  pub here : get_elem? s.settings p ≡ some us
  pub same_id : us.id ≡ old.id
  pub same_key : us.key ≡ old.key
  pub holds : HasValue bs us
  pub ready : IsReady laws s

same_value-HasValue :
    (us : UserSetting) (b : ℕ) (bs : Bytes)
    → IsSound us
    → same_value us (b ∷ bs) ≡ true
    → HasValue (b ∷ bs) us
same_value-HasValue us b bs v same = record {
  set = ground (arith, v.unset_is_empty);
  bytes =
      let long : length (b ∷ bs) ≡ us.value_len = ground arith in
      let equal : bytes_eq (take (length (b ∷ bs)) us.value) (b ∷ bs) ≡ true = ground arith in
      rw (← long) (bytes_eq-true _ _ equal);
}

module _ {Subsys Heap : Type 0} {z : Platform Subsys Heap} (laws : PlatformLaws z) (p : ℕ)
    (us : UserSetting) (s s' : State Subsys Heap) (ready : IsReady laws s)
    (here : get_elem? s.settings p ≡ some us) (b : ℕ) (bs : Bytes) where
  HasNewValue-Holds : HasNewValue laws p us (b ∷ bs) s s' → Holds laws p us (b ∷ bs) s'
  HasNewValue-Holds h = record {
    us = _;
    here = h.setting;
    same_id = refl;
    same_key = refl;
    holds = record { set = refl; bytes = take-append (b ∷ bs) _ };
    ready = h.ready;
  }

  flag-HasNewValue :
      (fits : length (b ∷ bs) ≤ us.max_size)
      (saved : (z.settings_save_one (full_name value_sh us.key) (b ∷ bs) s.subsys).0 ≡ ok tt)
      → same_value us (b ∷ bs) ≡ false
      → validated us.validate_cb us (b ∷ bs) ≡ true
      → us.has_changed_recently ≡ false
      → prv_user_settings_set z p (b ∷ bs) s ≡ done (ok tt, s')
      → let r =
          (z.settings_save_one
            (full_name changed_sh us.key)
            (1 ∷ [])
            (stored_state laws p us s ready here b bs fits saved).subsys).0 in
        (r ≡ ok tt) ⊎ ((errno : Errno) × (r ≡ err errno)) → HasNewValue laws p us (b ∷ bs) s s'
  flag-HasNewValue fits saved differs valid down e (inl flag_ok) =
      subst (HasNewValue laws p us (b ∷ bs) s)
        (cc (e, set_flag_down laws p us s ready here b bs fits saved differs valid down))
        (flagged-HasNewValue laws p us s ready here b bs fits saved flag_ok)
  flag-HasNewValue fits saved differs valid down e (inr (errno, failed)) =
      cc (e, failed, set_flag_down laws p us s ready here b bs fits saved differs valid down)

  new-HasNewValue :
      length (b ∷ bs) ≤ us.max_size
      → same_value us (b ∷ bs) ≡ false
      → validated us.validate_cb us (b ∷ bs) ≡ true
      → prv_user_settings_set z p (b ∷ bs) s ≡ done (ok tt, s')
      → HasNewValue laws p us (b ∷ bs) s s'
  new-HasNewValue fits differs valid e =
      elim (Result-cases (z.settings_save_one (full_name value_sh us.key) (b ∷ bs) s.subsys).0) [
        | inl saved ↦ elim (Bool-cases us.has_changed_recently) [
          | inl up ↦
              subst (HasNewValue laws p us (b ∷ bs) s)
                (cc (e, set_flag_up laws p us s ready here b bs fits saved differs valid up))
                (stored-HasNewValue laws p us s ready here b bs fits saved up)
          | inr down ↦ flag-HasNewValue fits saved differs valid down e (Result-cases _)
        ]
        | inr (errno, failed) ↦
            cc (e, set_unsaved laws p us s ready here b bs fits differs valid failed)
      ]

  -- A new value that was accepted.
  pub set_ok-HasNewValue :
      same_value us (b ∷ bs) ≡ false
      → prv_user_settings_set z p (b ∷ bs) s ≡ done (ok tt, s')
      → HasNewValue laws p us (b ∷ bs) s s'
  set_ok-HasNewValue differs e = elim (Bool-cases (ltb us.max_size (length (b ∷ bs)))) [
    | inl large ↦ cc (e, (set_rejects laws p us s ready here (b ∷ bs)).0 (ground arith))
    | inr fits ↦ elim (Bool-cases (validated us.validate_cb us (b ∷ bs))) [
      | inl valid ↦ new-HasNewValue (ground arith) differs valid e
      | inr invalid ↦
          cc (e, (set_rejects laws p us s ready here (b ∷ bs)).2 (ground arith) differs invalid)
    ]
  ]

  unmoved :
      prv_user_settings_set z p (b ∷ bs) s ≡ done (ok tt, s)
      → prv_user_settings_set z p (b ∷ bs) s ≡ done (ok tt, s')
      → s ≡ s'
  unmoved e e' = cc

  -- After a call that returned 0 the setting holds the bytes.
  pub set_ok-Holds :
      prv_user_settings_set z p (b ∷ bs) s ≡ done (ok tt, s') → Holds laws p us (b ∷ bs) s'
  set_ok-Holds e = elim (Bool-cases (ltb us.max_size (length (b ∷ bs)))) [
    | inl large ↦ cc (e, (set_rejects laws p us s ready here (b ∷ bs)).0 (ground arith))
    | inr fits ↦ elim (Bool-cases (same_value us (b ∷ bs))) [
      | inl same ↦
          let e' = (set_rejects laws p us s ready here (b ∷ bs)).1 (ground arith) same in
          record {
            us = us;
            here = subst (λ t. get_elem? t.settings p ≡ some us) (unmoved e' e) here;
            same_id = refl;
            same_key = refl;
            holds =
                same_value-HasValue us b bs
                  (All-get IsSound s.settings p ready.well_formed.sound here) same;
            ready = subst (IsReady laws) (unmoved e' e) ready;
          }
      | inr differs ↦ HasNewValue-Holds (set_ok-HasNewValue differs e)
    ]
  ]

module _ {Subsys Heap : Type 0} {z : Platform Subsys Heap} (laws : PlatformLaws z)
    (s s' : State Subsys Heap) (ready : IsReady laws s) (b : ℕ) (bs : Bytes) where
  -- In a library in order (IsReady): for a known key and at least one byte of data: when
  -- user_settings_set_with_key returns 0, then user_settings_get_with_key for that key returns a
  -- block and a length with exactly these bytes, and changes nothing.
  pub get-set_with_key :
      (key : Bytes) (p : ℕ)
      → get_by_key key s.settings ≡ some p
      → set_with_key z key (b ∷ bs) s ≡ done (ok tt, s')
      → (block : Bytes) × (len : ℕ) × (get_with_key key s' ≡ done (some (block, len), s'))
        × (take len block ≡ b ∷ bs)
  unfolding set_with_key get_with_key prv_user_setting_get
  get-set_with_key key p found e =
      let (us, here, is_key) = (get_by_key_iff key s.settings p ready.well_formed).0 found in
      let h = set_ok-Holds laws p us s s' ready here b bs (ground (arith, ready.loaded)) in
      let found' : get_by_key key s'.settings ≡ some p =
        (get_by_key_iff key s'.settings p h.ready.well_formed).1
          (h.us, h.here, h.same_key ∙ is_key) in
      (
        h.us.value,
        h.us.value_len,
        ground (arith, h.here, h.ready.loaded, h.holds.set, found'),
        h.holds.bytes,
      )

  -- In a library in order (IsReady): for a known ID and at least one byte of data: when
  -- user_settings_set_with_id returns 0, then user_settings_get_with_id for that ID returns a block
  -- and a length with exactly these bytes, and changes nothing.
  pub get-set_with_id :
      (id p : ℕ)
      → get_by_id id s.settings ≡ some p
      → set_with_id z id (b ∷ bs) s ≡ done (ok tt, s')
      → (block : Bytes) × (len : ℕ) × (get_with_id id s' ≡ done (some (block, len), s'))
        × (take len block ≡ b ∷ bs)
  unfolding set_with_id get_with_id prv_user_setting_get
  get-set_with_id id p found e =
      let (us, here, is_id) = (get_by_id_iff id s.settings p ready.well_formed).0 found in
      let h = set_ok-Holds laws p us s s' ready here b bs (ground (arith, ready.loaded)) in
      let found' : get_by_id id s'.settings ≡ some p =
        (get_by_id_iff id s'.settings p h.ready.well_formed).1 (h.us, h.here, h.same_id ∙ is_id) in
      (
        h.us.value,
        h.us.value_len,
        ground (arith, h.here, h.ready.loaded, h.holds.set, found'),
        h.holds.bytes,
      )
