-- ===== src/Startup/Ready.antt =====
-- user_settings_init, the declaration of the settings and user_settings_load, of
-- library/user_settings/user_settings.c, bring the library in order.
use irnas_usersettings_lib.Base.{
  sym, fault, assertion, Status, err, Outcome, bind_fault, Result-cases, ◌>>=◌, ◌≡◌, refl, ap, ◌∙◌,
  true, false, Option, none, some, List, [], ◌∷◌, map, All, ok, done, ◌>>=◌, bind_done, inl, inr,
}
use irnas_usersettings_lib.Platform.{Platform, PlatformLaws}
use irnas_usersettings_lib.State.{State}
use irnas_usersettings_lib.SettingsList.Lookup.{IsWellFormed}
use irnas_usersettings_lib.Settings.Init.{init, load, add, add_sized}
use irnas_usersettings_lib.Settings.Saving.{IsReady, NameFits}
use irnas_usersettings_lib.Settings.Restart.{LoadLaws, from_storage, load-from_storage}
use irnas_usersettings_lib.Startup.{
  plain, sized, declare, Declaration, IsProper, declared, declare_all, start, allocate_all,
}
use irnas_usersettings_lib.Startup.Init.{
  StartLaws, started, started-registered, started-stored, init_ok, init_failed,
}
use irnas_usersettings_lib.Startup.Loaded.{
  map-IsWellFormed, map-names, from_storage-Keeps, from_storage_cong,
}
use irnas_usersettings_lib.Startup.Declare.{filled, declare_all_lem}

-- How `start` ends: with the status of init and the heap after the declarations.
abbrev pub start_outcome :
    {Subsys Heap : Type 0}
    → (Heap → State Subsys Heap)
    → Status
    → Option Heap
    → Outcome (Status × State Subsys Heap)
start_outcome ready (ok t) (some heap) = done (ok tt, ready heap)
start_outcome ready (ok t) none = fault assertion
start_outcome ready (err e) room = fault assertion

module _ {Subsys Heap : Type 0} (z : Platform Subsys Heap) where
  -- Before user_settings_init has succeeded, the next call stops at its assertion.
  declare_uninited :
      (d : Declaration) (s : State Subsys Heap)
      → s.is_inited ≡ false
      → declare z d s ≡ fault assertion
  unfolding add add_sized
  declare_uninited (plain id key type) s fresh = rw fresh refl
  declare_uninited (sized id key type size) s fresh = rw fresh refl

  pub unstarted :
      (ds : List Declaration) (s : State Subsys Heap)
      → s.is_inited ≡ false
      → (declare_all z ds >>= λ _. load z) s ≡ fault assertion
  unfolding declare_all load
  unstarted [] s fresh = rw fresh refl
  unstarted (d ∷ ds) s fresh =
      bind_fault (declare_all z (d ∷ ds)) s (λ _. load z)
        (bind_fault (declare z d) s (λ _. declare_all z ds) (declare_uninited d s fresh))

module _ {Subsys Heap : Type 0} {z : Platform Subsys Heap} (laws : PlatformLaws z)
    (load_laws : LoadLaws laws) (start_laws : StartLaws laws) (ds : List Declaration)
    (s : State Subsys Heap) where
  -- The library as `start` leaves it, with what is left of the heap.
  abbrev pub at_start : Heap → State Subsys Heap
  at_start heap = record s {
    settings = map (from_storage laws s.subsys) (map declared ds);
    heap = heap;
    subsys = (started z s.subsys).1;
    is_inited = true;
    is_loaded = true;
  }

  module _ (proper : All IsProper ds) (w : IsWellFormed (map declared ds))
      (fresh : s.is_inited ≡ false) (unloaded : s.is_loaded ≡ false) where
    -- After user_settings_init has succeeded.
    abbrev pub inited_state : State Subsys Heap
    inited_state = record s { settings = []; subsys = (started z s.subsys).1; is_inited = true }

    load-filled :
        (started z s.subsys).0 ≡ ok tt
        → (o : Option Heap)
        → declare_all z ds inited_state ≡ filled (map declared ds) inited_state o
        → (declare_all z ds >>= λ _. load z) inited_state ≡ start_outcome at_start (ok tt) o
    load-filled answers none e = bind_fault (declare_all z ds) inited_state (λ _. load z) e
    load-filled answers (some heap) e =
        let s₁ = record inited_state { heap = heap; settings = map declared ds } in
        let registered = started-registered laws start_laws s.subsys answers in
        let same_pairs =
          from_storage_cong laws s.subsys (started z s.subsys).1
            (λ name. started-stored laws start_laws name s.subsys) in
        bind_done (declare_all z ds) inited_state (λ _. load z) e
        ∙ load-from_storage laws load_laws s₁ refl unloaded w.distinct_keys registered
        ∙ ap (λ f. done (ok tt, record s₁ { settings = map f (map declared ds); is_loaded = true }))
            same_pairs

    -- The settings are there, but not loaded.
    pub declared_run :
        (heap : Heap)
        → allocate_all z ds s.heap ≡ some heap
        → declare_all z ds inited_state
          ≡ done (tt, record inited_state { settings = map declared ds; heap = heap })
    declared_run heap room =
        declare_all_lem z ds inited_state refl proper w.distinct_ids w.distinct_keys
        ∙ ap (filled (map declared ds) inited_state) room

    started_run :
        (started z s.subsys).0 ≡ ok tt
        → start z ds s ≡ start_outcome at_start (ok tt) (allocate_all z ds s.heap)
    unfolding start
    started_run answers =
        bind_done (init z) s (λ _. declare_all z ds >>= λ _. load z) (init_ok z s fresh answers)
        ∙ load-filled answers (allocate_all z ds s.heap)
            (declare_all_lem z ds inited_state refl proper w.distinct_ids w.distinct_keys)

    pub start_lem :
        start z ds s ≡ start_outcome at_start (started z s.subsys).0 (allocate_all z ds s.heap)
    unfolding start
    start_lem = elim (Result-cases (started z s.subsys).0) [
      | inl answers ↦
          started_run answers
          ∙ ap (λ r. start_outcome at_start r (allocate_all z ds s.heap)) (sym answers)
      | inr (e, failed) ↦
          bind_done (init z) s (λ _. declare_all z ds >>= λ _. load z)
            (init_failed z s fresh e failed)
          ∙ unstarted z ds (record s { settings = []; subsys = (started z s.subsys).1 }) fresh
          ∙ ap (λ r. start_outcome at_start r (allocate_all z ds s.heap)) (sym failed)
    ]

    pub start-IsReady :
        (heap : Heap)
        → All (NameFits z.settings_max_name_len) (map declared ds)
        → (started z s.subsys).0 ≡ ok tt
        → IsReady laws (at_start heap)
    start-IsReady heap names answers =
        let keeps = from_storage-Keeps laws s.subsys in
        record {
          inited = refl;
          loaded = refl;
          well_formed = map-IsWellFormed (from_storage laws s.subsys) keeps (map declared ds) w;
          registered = started-registered laws start_laws s.subsys answers;
          names =
              map-names z.settings_max_name_len (from_storage laws s.subsys) keeps (map declared ds)
                names;
        }
