-- ===== src/Settings/Ready.antt =====
-- The invariant `IsReady` of library/user_settings/user_settings.c under the callbacks and saves.
use mathlib.Core.List.{append-nil}
use irnas_usersettings_lib.Base.{
  ℕ, ◌≤◌, ◌≡◌, refl, subst, ◌∙◌, sym, true, not, Option, none, some, List, [], ◌∷◌, ◌++◌, arith,
  length, length-append, length-drop, drop, modify, get_elem?, All-get, All-modify_at, Bytes, ◌==◌,
}
use irnas_usersettings_lib.Setting.{UserSetting, IsSound}
use irnas_usersettings_lib.Platform.{
  Platform, PlatformLaws, Handler, default_sh, value_sh, changed_sh, full_name,
}
use irnas_usersettings_lib.State.{State, OnChange}
use irnas_usersettings_lib.SettingsList.Lookup.{modify-IsWellFormed}
use irnas_usersettings_lib.Settings.Handlers.{
  with_default, with_value, with_changed_flag, overwrite,
}
use irnas_usersettings_lib.Settings.Saving.{IsReady, NameFits, applied, first_byte, room}

-- What the callback of a handler does to the setting.
abbrev pub change : Handler → Bytes → UserSetting → UserSetting
change default_sh bs = with_default bs
change value_sh bs = with_value bs
change changed_sh bs = with_changed_flag (not (first_byte bs == 0))

length-overwrite :
    (bs block : Bytes) → length bs ≤ length block → length (overwrite bs block) ≡ length block
length-overwrite bs block h =
    omega (arith, length-append bs (drop (length bs) block), length-drop (length bs) block)

pub change-IsSound :
    (h : Handler) (bs : Bytes) (us : UserSetting)
    → length bs ≤ room h us
    → IsSound us
    → IsSound (change h bs us)
change-IsSound default_sh bs us fits v = record {
  id_fits = v.id_fits;
  block = v.block;
  default_block =
      length-overwrite bs us.default_value (omega (arith, v.default_block)) ∙ v.default_block;
  fits = v.fits;
  default_fits = fits;
  unset_is_empty = v.unset_is_empty;
  no_default_is_empty = λ e. cc;
}
change-IsSound value_sh bs us fits v = record {
  id_fits = v.id_fits;
  block = length-overwrite bs us.value (omega (arith, v.block)) ∙ v.block;
  default_block = v.default_block;
  fits = fits;
  default_fits = v.default_fits;
  unset_is_empty = λ e. cc;
  no_default_is_empty = v.no_default_is_empty;
}
change-IsSound changed_sh bs us fits v = record {
  id_fits = v.id_fits;
  block = v.block;
  default_block = v.default_block;
  fits = v.fits;
  default_fits = v.default_fits;
  unset_is_empty = v.unset_is_empty;
  no_default_is_empty = v.no_default_is_empty;
}

pub change-id : (h : Handler) (bs : Bytes) (us : UserSetting) → (change h bs us).id ≡ us.id
change-id default_sh bs us = refl
change-id value_sh bs us = refl
change-id changed_sh bs us = refl

pub change-key : (h : Handler) (bs : Bytes) (us : UserSetting) → (change h bs us).key ≡ us.key
change-key default_sh bs us = refl
change-key value_sh bs us = refl
change-key changed_sh bs us = refl

-- The calls of the application's callbacks for a new value: first the global one, then the one of
-- the setting.
abbrev pub called : Option ℕ → UserSetting → List OnChange
called none us = []
called (some callback) us = record { callback = callback; id = us.id; key = us.key } ∷ []

module _ {Subsys Heap : Type 0} where
  pub applied-settings :
      (h : Handler) (p : ℕ) (us : UserSetting) (bs : Bytes) (s : State Subsys Heap)
      → (applied h p us bs s).settings ≡ modify s.settings p (change h bs)
  applied-settings default_sh p us bs s = refl
  applied-settings value_sh p us bs s = ground arith
  applied-settings changed_sh p us bs s = refl

  -- The callbacks leave the flags of the module alone.
  pub applied_flags :
      (h : Handler) (p : ℕ) (us : UserSetting) (bs : Bytes) (s : State Subsys Heap)
      → ((applied h p us bs s).is_inited ≡ s.is_inited)
        × ((applied h p us bs s).is_loaded ≡ s.is_loaded)
        × ((applied h p us bs s).global_on_change_cb ≡ s.global_on_change_cb)
        × ((applied h p us bs s).heap ≡ s.heap)
  applied_flags default_sh p us bs s = (refl, refl, refl, refl)
  applied_flags value_sh p us bs s = ground arith
  applied_flags changed_sh p us bs s = (refl, refl, refl, refl)

  pub applied-on_changes :
      (p : ℕ) (us : UserSetting) (bs : Bytes) (s : State Subsys Heap)
      → s.is_loaded ≡ true
      → (applied value_sh p us bs s).on_changes
        ≡ (s.on_changes ++ called s.global_on_change_cb us) ++ called us.on_change_cb us
  applied-on_changes p us bs s loaded =
      ground (
        arith,
        append-nil s.on_changes,
        append-nil (s.on_changes ++ called s.global_on_change_cb us),
      )

module _ {Subsys Heap : Type 0} {z : Platform Subsys Heap} (laws : PlatformLaws z) (p : ℕ)
    (us : UserSetting) (s : State Subsys Heap) (ready : IsReady laws s)
    (here : get_elem? s.settings p ≡ some us) where
  pub saved-IsReady :
      (name bs : Bytes)
      → IsReady laws (record s { subsys = (z.settings_save_one name bs s.subsys).1 })
  saved-IsReady name bs = record {
    inited = ready.inited;
    loaded = ready.loaded;
    well_formed = ready.well_formed;
    registered = λ h. laws.save_registered h name bs s.subsys ∙ ready.registered h;
    names = ready.names;
  }

  -- A pair that fits, given to its callback and saved, keeps the library in order.
  pub applied-IsReady :
      (h : Handler) (name bs : Bytes)
      → length bs ≤ room h us
      → IsReady laws
          (record (applied h p us bs s) { subsys = (z.settings_save_one name bs s.subsys).1 })
  applied-IsReady h name bs fits = record {
    inited = (applied_flags h p us bs s).0 ∙ ready.inited;
    loaded = (applied_flags h p us bs s).1 ∙ ready.loaded;
    well_formed = rw (applied-settings h p us bs s) (
        modify-IsWellFormed s.settings p (change h bs) here (change-id h bs) (change-key h bs)
          (change-IsSound h bs us fits (All-get IsSound s.settings p ready.well_formed.sound here))
          ready.well_formed);
    registered = (saved-IsReady name bs).registered;
    names = rw (applied-settings h p us bs s) (
        All-modify_at (NameFits z.settings_max_name_len) s.settings p (change h bs) here
          (subst (λ k. (g : Handler) → length (full_name g k) ≤ z.settings_max_name_len)
            (sym (change-key h bs us))
            (All-get (NameFits z.settings_max_name_len) s.settings p ready.names here))
          ready.names);
  }
