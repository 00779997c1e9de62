-- ===== src/Settings/Saving.antt =====
-- What handing a pair to its callback and saving it does (prv_default_set_cb, prv_value_set_cb and
-- prv_changed_flag_set_cb of library/user_settings/user_settings.c, under settings_runtime_set and
-- settings_save_one).
use irnas_usersettings_lib.Base.{
  ℕ, zero, suc, ◌≤◌, ◌≡◌, refl, true, not, some, [], ◌∷◌, arith, length, take, take_all, get_elem?,
  get_elem?-modify_self, All, All-get, Bytes, ◌==◌, Status, ok, err, eio, done,
}
use irnas_usersettings_lib.Setting.{UserSetting}
use irnas_usersettings_lib.Platform.{
  Platform, PlatformLaws, Handler, default_sh, value_sh, changed_sh, HandlerCall, read_bytes,
  full_name,
}
use irnas_usersettings_lib.State.{State, write}
use irnas_usersettings_lib.SettingsList.Lookup.{IsWellFormed, get_by_key_self}
use irnas_usersettings_lib.Settings.Handlers.{
  with_default, with_value, with_changed_flag, call_on_change, h_set,
}
use irnas_usersettings_lib.Settings.Change.{runtime_set, set_and_save}

-- The bytes that a callback has room for.
abbrev pub room : Handler → UserSetting → ℕ
room default_sh us = us.max_size
room value_sh us = us.max_size
room changed_sh us = 1

-- The first byte of a flag.
abbrev pub first_byte : Bytes → ℕ
first_byte [] = 0
first_byte (b ∷ bs) = b

abbrev pub eio_unless_ok : Status → Status
eio_unless_ok (ok t) = ok tt
eio_unless_ok (err e) = err eio

-- The name buffer holds the name of the pair under each of the three prefixes.
abbrev pub NameFits : ℕ → UserSetting → Type 0
NameFits limit us = (h : Handler) → length (full_name h us.key) ≤ limit

-- The call that settings_runtime_set makes for some bytes.
abbrev pub call_with : Bytes → Bytes → HandlerCall
call_with key bs = record { key = key; len = length bs; read = read_bytes bs }

take_nil : (n : ℕ) → take {A = ℕ} n [] ≡ []
take_nil zero = refl
take_nil (suc n) = refl

module _ {Subsys Heap : Type 0} where
  -- What the callback of a handler does to the setting at `p`; the callbacks of the application
  -- are called for a value only.
  abbrev pub applied : Handler → ℕ → UserSetting → Bytes → State Subsys Heap → State Subsys Heap
  applied default_sh p us bs s = write p (with_default bs) s
  applied value_sh p us bs s =
      call_on_change us.on_change_cb us
        (call_on_change s.global_on_change_cb us (write p (with_value bs) s))
  applied changed_sh p us bs s = write p (with_changed_flag (not (first_byte bs == 0))) s

  module _ (p : ℕ) (us : UserSetting) (s : State Subsys Heap) (w : IsWellFormed s.settings)
      (here : get_elem? s.settings p ≡ some us) where
    pub h_set_lem :
        (h : Handler) (b : ℕ) (bs : Bytes)
        → length (b ∷ bs) ≤ room h us
        → h_set h (call_with us.key (b ∷ bs)) s ≡ done (ok tt, applied h p us (b ∷ bs) s)
    unfolding h_set
    h_set_lem default_sh b bs fits =
        ground (arith, get_by_key_self p us w here, take_all us.max_size (b ∷ bs) fits)
    h_set_lem value_sh b bs fits = ground (
      arith,
      get_by_key_self p us w here,
      take_all us.max_size (b ∷ bs) fits,
      get_elem?-modify_self s.settings p (with_value (b ∷ bs)) here,
    )
    h_set_lem changed_sh b bs fits = ground (arith, get_by_key_self p us w here)

    -- No bytes: the callback takes the pair for a deleted one and leaves the setting alone.
    pub h_set-nil : (h : Handler) → h_set h (call_with us.key []) s ≡ done (ok tt, s)
    unfolding h_set
    h_set-nil default_sh = ground (arith, get_by_key_self p us w here, take_nil us.max_size)
    h_set-nil value_sh = ground (arith, get_by_key_self p us w here, take_nil us.max_size)
    h_set-nil changed_sh = ground (arith, get_by_key_self p us w here)

  pub applied-subsys :
      (h : Handler) (p : ℕ) (us : UserSetting) (bs : Bytes) (s : State Subsys Heap)
      → (applied h p us bs s).subsys ≡ s.subsys
  applied-subsys default_sh p us bs s = refl
  applied-subsys value_sh p us bs s = ground arith
  applied-subsys changed_sh p us bs s = refl

-- The library is initialised, loaded and in order: its handlers are registered, and the name of
-- every setting fits the name buffer.
pub record IsReady {Subsys Heap : Type 0} {z : Platform Subsys Heap} (laws : PlatformLaws z)
    (s : State Subsys Heap) : Type 0 where
  pub inited : s.is_inited ≡ true
  pub loaded : s.is_loaded ≡ true
  pub well_formed : IsWellFormed s.settings
  pub registered : (h : Handler) → laws.registered h s.subsys ≡ true
  pub names : All (NameFits z.settings_max_name_len) s.settings

module _ {Subsys Heap : Type 0} {z : Platform Subsys Heap} (laws : PlatformLaws z) (p : ℕ)
    (us : UserSetting) (s : State Subsys Heap) (ready : IsReady laws s)
    (here : get_elem? s.settings p ≡ some us) where
  name_fits : (h : Handler) → length (full_name h us.key) ≤ z.settings_max_name_len
  name_fits h = All-get (NameFits z.settings_max_name_len) s.settings p ready.names here h

  runtime_set_lem :
      (h : Handler) (bs : Bytes)
      → runtime_set z (full_name h us.key) bs s ≡ h_set h (call_with us.key bs) s
  unfolding runtime_set
  runtime_set_lem h bs = rw (laws.runtime_set_calls h us.key bs s.subsys (ready.registered h))

  -- In a library in order (IsReady): the callback stores the bytes, and then they are saved; a
  -- failure to save comes back as -EIO, and what the callback did stays done.
  pub set_and_save_lem :
      (h : Handler) (b : ℕ) (bs : Bytes)
      → length (b ∷ bs) ≤ room h us
      → let r = z.settings_save_one (full_name h us.key) (b ∷ bs) s.subsys in
        set_and_save z h us.key (b ∷ bs) s
        ≡ done (eio_unless_ok r.0, record (applied h p us (b ∷ bs) s) { subsys = r.1 })
  unfolding set_and_save
  set_and_save_lem h b bs fits = ground (
    arith,
    name_fits h,
    runtime_set_lem h (b ∷ bs),
    h_set_lem p us s ready.well_formed here h b bs fits,
    applied-subsys h p us (b ∷ bs) s,
  )

  -- No bytes: the stored pair is deleted, and the setting is left alone.
  pub set_and_save-nil :
      (h : Handler)
      → let r = z.settings_save_one (full_name h us.key) [] s.subsys in
        set_and_save z h us.key [] s ≡ done (eio_unless_ok r.0, record s { subsys = r.1 })
  unfolding set_and_save
  set_and_save-nil h =
      ground (arith, name_fits h, runtime_set_lem h [], h_set-nil p us s ready.well_formed here h)
