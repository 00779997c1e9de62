-- ===== src/Startup/Safety.antt =====
-- The calls of library/user_settings/user_settings.c that an application makes after it has started
-- the library.
use irnas_usersettings_lib.Base.{
  ◌≡◌, ◌⊎◌, refl, suc, [], ◌∷◌, ap, ◌∙◌, sym, subst, false, List, map, All, length, ok, Status,
  true, inl, inr, Outcome, fault, assertion, Result-cases, Option-cases, bind_done, bind_fault,
  ◌>>=◌,
}
use irnas_usersettings_lib.Platform.{Platform, PlatformLaws}
use irnas_usersettings_lib.State.{State}
use irnas_usersettings_lib.SettingsList.Lookup.{IsWellFormed}
use irnas_usersettings_lib.Settings.Init.{init, load}
use irnas_usersettings_lib.Settings.Saving.{NameFits}
use irnas_usersettings_lib.Settings.Calls.{
  Call, sets, sets_default, restores, marks, clears, restores_all, clears_all, with_key, with_id,
  call, call_all, IsSafe, call_all-IsSafe,
}
use irnas_usersettings_lib.Startup.{
  Declaration, IsProper, declared, declare_all, start, allocate_all,
}
use irnas_usersettings_lib.Startup.Init.{
  StartLaws, started, started-registered, init_ok, init_failed,
}
use irnas_usersettings_lib.Startup.Declare.{filled, declare_all_lem}
use irnas_usersettings_lib.Startup.Deliveries.{IsWaiting, Loads, load-Loads}
use irnas_usersettings_lib.Startup.Ready.{unstarted}

length-map : {A B : Type 0} (f : A → B) (l : List A) → length (map f l) ≡ length l
length-map f [] = refl
length-map f (a ∷ l) = ap suc (length-map f l)

-- Before the settings are loaded, every call stops at its assertion.
call-unloaded :
    {Subsys Heap : Type 0} (z : Platform Subsys Heap) (c : Call) (s : State Subsys Heap)
    → s.is_loaded ≡ false
    → call z c s ≡ fault assertion
unfolding call
call-unloaded z (sets (with_key key) bs) s e = rw e refl
call-unloaded z (sets (with_id id) bs) s e = rw e refl
call-unloaded z (sets_default (with_key key) bs) s e = rw e refl
call-unloaded z (sets_default (with_id id) bs) s e = rw e refl
call-unloaded z (restores (with_key key)) s e = rw e refl
call-unloaded z (restores (with_id id)) s e = rw e refl
call-unloaded z (marks (with_key key)) s e = rw e refl
call-unloaded z (marks (with_id id)) s e = rw e refl
call-unloaded z (clears (with_key key)) s e = rw e refl
call-unloaded z (clears (with_id id)) s e = rw e refl
call-unloaded z restores_all s e = rw e refl
call-unloaded z clears_all s e = rw e refl

module _ {Subsys Heap : Type 0} {z : Platform Subsys Heap} (laws : PlatformLaws z)
    (start_laws : StartLaws laws) (ds : List Declaration) (s : State Subsys Heap)
    (proper : All IsProper ds) (w : IsWellFormed (map declared ds))
    (names : All (NameFits z.settings_max_name_len) (map declared ds)) (fresh : s.is_inited ≡ false)
    (unloaded : s.is_loaded ≡ false) where
  -- `start` stops at an assertion, or it returns with or without having loaded the settings.
  Starts : Outcome (Status × State Subsys Heap) → Type 0
  Starts o = (o ≡ fault assertion) ⊎ Loads laws (length ds) o

  declared_state : Heap → State Subsys Heap
  declared_state heap = record s {
    settings = map declared ds;
    heap = heap;
    subsys = (started z s.subsys).1;
    is_inited = true;
  }

  declared-IsWaiting :
      (heap : Heap)
      → (started z s.subsys).0 ≡ ok tt
      → IsWaiting laws (length ds) (declared_state heap)
  unfolding declared_state
  declared-IsWaiting heap answers = (
    unloaded,
    (
      record {
        inited = refl;
        loaded = refl;
        well_formed = w;
        registered = started-registered laws start_laws s.subsys answers;
        names = names;
      },
      length-map declared ds,
    ),
  )

  inited-Starts : (started z s.subsys).0 ≡ ok tt → Starts (start z ds s)
  unfolding start Starts declared_state
  inited-Starts answers =
      let s₁ = record s { settings = []; subsys = (started z s.subsys).1; is_inited = true } in
      let rest = λ (u : Unit {0}). load z in
      let inited =
        bind_done (init z) s (λ _. declare_all z ds >>= rest) (init_ok z s fresh answers) in
      let allocated = declare_all_lem z ds s₁ refl proper w.distinct_ids w.distinct_keys in
      elim (Option-cases (allocate_all z ds s.heap)) [
        | inl full ↦ inl (
            inited
            ∙ bind_fault (declare_all z ds) s₁ rest
                (allocated ∙ ap (filled (map declared ds) s₁) full))
        | inr (heap, room) ↦
            let (r, s₂, run, end) =
              load-Loads laws (length ds) (declared_state heap) (declared-IsWaiting heap answers) in
            inr (
              r,
              s₂,
              inited
                  ∙ bind_done (declare_all z ds) s₁ rest
                      (allocated ∙ ap (filled (map declared ds) s₁) room)
                  ∙ run,
              end,
            )
      ]

  start-Starts : Starts (start z ds s)
  unfolding start Starts
  start-Starts = elim (Result-cases (started z s.subsys).0) [
    | inl answers ↦ inited-Starts answers
    | inr (e, failed) ↦ inl (
        bind_done (init z) s (λ _. declare_all z ds >>= λ _. load z)
          (init_failed z s fresh e failed)
        ∙ unstarted z ds (record s { settings = []; subsys = (started z s.subsys).1 }) fresh)
  ]

  -- An application that has declared its settings properly (each with the function for its type,
  -- distinct IDs below 65536 and keys, names that fit the name buffer) starts the library from its
  -- first state and then makes one or more calls that set values, defaults or changed flags, restore
  -- defaults or clear flags, by key, by ID or for all settings, with any data. Whatever is stored,
  -- whether or not starting the settings subsystem, loading from it, each read and each save
  -- succeed, and however large the heap is, all calls return and leave the library in order, with
  -- the declared number of settings, or an assertion stops the program; it never follows a dangling
  -- pointer, accesses what is outside a buffer or loops for ever.
  pub start-IsSafe :
      (c : Call) (cs : List Call)
      → IsSafe laws (length ds) ((start z ds >>= λ _. call_all z (c ∷ cs)) s)
  unfolding Starts call_all
  start-IsSafe c cs =
      let calls = λ (r : Status). call_all z (c ∷ cs) in
      elim start-Starts [
        | inl stopped ↦ inr (bind_fault (start z ds) s calls stopped)
        | inr (r, s', run, inl still) ↦ inr (
            bind_done (start z ds) s calls run
            ∙ bind_fault (call z c) s' (λ _. call_all z cs) (call-unloaded z c s' still))
        | inr (r, s', run, inr in_order) ↦
            subst (IsSafe laws (length ds)) (sym (bind_done (start z ds) s calls run))
              (call_all-IsSafe laws (length ds) (c ∷ cs) s' in_order)
      ]
