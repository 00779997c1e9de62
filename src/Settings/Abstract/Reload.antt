-- ===== src/Settings/Abstract/Reload.antt =====
-- The table of entries after a restart (user_settings_load of
-- library/user_settings/user_settings.c).
use irnas_usersettings_lib.Base.{
  ◌≡◌, refl, ap, ◌∙◌, sym, subst, true, false, some, List, [], ◌∷◌, map, replicate, All, Distinct,
  Bytes, ok, done,
}
use irnas_usersettings_lib.Setting.{UserSetting, IsSound}
use irnas_usersettings_lib.Platform.{Platform, PlatformLaws, Handler}
use irnas_usersettings_lib.State.{State}
use irnas_usersettings_lib.SettingsList.Lookup.{keys}
use irnas_usersettings_lib.Settings.Init.{load}
use irnas_usersettings_lib.Settings.Saving.{IsReady}
use irnas_usersettings_lib.Settings.Calls.{call_all}
use irnas_usersettings_lib.Settings.Restart.{LoadLaws, from_storage, load-from_storage, keys-map}
use irnas_usersettings_lib.Settings.Abstract.{Entry, entry, Request, as_call, serve_all}
use irnas_usersettings_lib.Settings.Abstract.Stored.{InStore, IsStored}
use irnas_usersettings_lib.Settings.Abstract.FromStorage.{
  entry-stored_entry, InStore-Holds, InStore-stored_entry,
}
use irnas_usersettings_lib.Settings.Abstract.Refinement.{Refines, call_all-Refines}

-- The same setting as it is when the program has added it, with its callbacks registered.
abbrev pub blank : UserSetting → UserSetting
blank us = record us {
  value = replicate us.max_size 0;
  value_len = 0;
  is_set = false;
  default_value = replicate us.max_size 0;
  default_value_len = 0;
  default_is_set = false;
  has_changed_recently = false;
}

module _ {Subsys Heap : Type 0} {z : Platform Subsys Heap} (laws : PlatformLaws z) (sub : Subsys)
    (us : UserSetting) where
  entry-from_storage :
      IsSound us → InStore laws sub us → entry (from_storage laws sub (blank us)) ≡ entry us
  unfolding entry
  entry-from_storage sound i =
      let holds = InStore-Holds laws sub us sound i in
      entry-stored_entry laws sub (blank us) refl refl refl (record {
        value_fits = holds.value_fits;
        default_fits = holds.default_fits;
        value_filled = holds.value_filled;
        default_filled = holds.default_filled;
      })
      ∙ InStore-stored_entry laws sub us i

module _ {Subsys Heap : Type 0} {z : Platform Subsys Heap} (laws : PlatformLaws z)
    (load_laws : LoadLaws laws) where
  table-from_storage :
      (sub : Subsys) (l : List UserSetting)
      → All IsSound l
      → All (InStore laws sub) l
      → map entry (map (from_storage laws sub) (map blank l)) ≡ map entry l
  table-from_storage sub [] sounds all = refl
  table-from_storage sub (us ∷ l) sounds all =
      ap (λ e. e ∷ map entry (map (from_storage laws sub) (map blank l)))
        (entry-from_storage laws sub us sounds.0 all.0)
      ∙ ap (◌∷◌ (entry us)) (table-from_storage sub l sounds.1 all.1)

  module _ (saves : (name bs : Bytes) (sub : Subsys) → (z.settings_save_one name bs sub).0 ≡ ok tt)
      (s s' t : State Subsys Heap) (ready : IsReady laws s) (is_stored : IsStored laws s) where
    -- What a sequence of calls did survives a restart. The storage saves everything; in a library
    -- in order (IsReady) whose entries are what is stored (IsStored), calls that set values and
    -- defaults (of at least one byte) and flags by known keys were made and returned. t is a later
    -- start of the program on the same storage, initialised, with its handlers registered and the
    -- same settings added again, all blank, but not loaded. Then user_settings_load returns 0, and
    -- the entries are the ones that the table has after the requests.
    pub load-serve_all :
        (rs : List Request) (es : List Entry)
        → serve_all z.default_overwrite rs (map entry s.settings) ≡ some es
        → call_all z (map as_call rs) s ≡ done (tt, s')
        → t.is_inited ≡ true
        → t.is_loaded ≡ false
        → ((h : Handler) → laws.registered h t.subsys ≡ true)
        → t.subsys ≡ s'.subsys
        → t.settings ≡ map blank s'.settings
        → (t' : State Subsys Heap) × (load z t ≡ done (ok tt, t')) × (map entry t'.settings ≡ es)
    load-serve_all rs es table ran inited fresh registered same_storage same_settings =
        let refined =
          subst (Refines laws (call_all z (map as_call rs) s)) table
            (call_all-Refines laws saves rs s ready is_stored) in
        let (s'', run, same, ready'', is_stored'') = refined in
        let one : s'' ≡ s' = cc (sym run ∙ ran) in
        let ready' = subst (IsReady laws) one ready'' in
        let is_stored' = subst (IsStored laws) one is_stored'' in
        let keys_kept : keys t.settings ≡ keys s'.settings =
          ap keys same_settings ∙ keys-map blank s'.settings (λ us. refl) in
        let distinct = subst Distinct (sym keys_kept) ready'.well_formed.distinct_keys in
        (
          record t { settings = map (from_storage laws t.subsys) t.settings; is_loaded = true },
          load-from_storage laws load_laws t inited fresh distinct registered,
          ap (λ l. map entry (map (from_storage laws t.subsys) l)) same_settings
              ∙ ap (λ sub. map entry (map (from_storage laws sub) (map blank s'.settings)))
                  same_storage
              ∙ table-from_storage s'.subsys s'.settings ready'.well_formed.sound is_stored'
              ∙ ap (λ u. map entry u.settings) (sym one)
              ∙ same,
        )
