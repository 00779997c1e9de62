-- ===== src/Samples/Callbacks/Run.antt =====
-- What samples/callbacks/src/main.c leaves registered, and what its callbacks then read.
use irnas_usersettings_lib.Base.{
  ℕ, ◌≡◌, refl, ap, ◌∙◌, true, false, some, map, ◌+◌, ◌*◌, ◌≤◌, ◌↔◌, fault, subst, sym, done, ok,
  get_elem?, arith, ◌>>=◌, pure, bind_done,
}
use irnas_usersettings_lib.Setting.{UserSetting}
use irnas_usersettings_lib.Platform.{Platform, PlatformLaws}
use irnas_usersettings_lib.State.{State}
use irnas_usersettings_lib.Memory.{ℤ, pos}
use irnas_usersettings_lib.Settings.Init.{init, load}
use irnas_usersettings_lib.Settings.Change.{validated}
use irnas_usersettings_lib.Settings.Restart.{LoadLaws, from_storage}
use irnas_usersettings_lib.Startup.{allocate_all}
use irnas_usersettings_lib.Startup.Init.{StartLaws, started}
use irnas_usersettings_lib.Startup.Loaded.{map-IsWellFormed, from_storage-Keeps}
use irnas_usersettings_lib.ValidationHelpers.{IntType, converted}
use irnas_usersettings_lib.ValidationHelpers.Verdicts.{IsAtMost, bytes_of}
use irnas_usersettings_lib.Samples.{add_t1_t11}
use irnas_usersettings_lib.Samples.Start.{after_init, after_add, init_run, add_run, load_run}
use irnas_usersettings_lib.Samples.Settings.{t1_t11, t1_t11-IsWellFormed}
use irnas_usersettings_lib.Samples.Callbacks.Verdicts.{prv_validate_t2_t9_lem}
use irnas_usersettings_lib.Samples.Callbacks.{
  int_type, prv_validate_t2_t9, on_change_global, register_callbacks, callbacks_main,
}
use irnas_usersettings_lib.Samples.Callbacks.Registered.{
  validate_t2_t9, registered_settings, register_run, registered-IsWellFormed, verdict_at,
}

module _ {Subsys Heap : Type 0} {z : Platform Subsys Heap} (laws : PlatformLaws z)
    (load_laws : LoadLaws laws) (start_laws : StartLaws laws) (after : ℕ → ℕ)
    (s : State Subsys Heap) (heap : Heap) where
  -- The library as the program leaves it.
  abbrev pub at_end : State Subsys Heap
  at_end = record s {
    settings = map (from_storage laws s.subsys) (registered_settings after);
    heap = heap;
    subsys = (started z s.subsys).1;
    is_inited = true;
    is_loaded = true;
    global_on_change_cb = some on_change_global;
  }

  -- The program, from its first state, when the settings subsystem starts and the heap holds the
  -- eleven settings: it returns 0, each setting has its callbacks and what is stored of it, and
  -- the global callback is registered. The setting at a position from 1 to 8 (the first one has
  -- position 0) then has the ID that is one more, and for the bytes of a number of its type,
  -- prv_validate_t2_t9, which reads the type from the library as the program leaves it, gives the
  -- verdict of the callback registered with the setting, and changes nothing; this verdict accepts
  -- exactly the numbers from 10 times the ID to 9 more.
  pub callbacks_main_lem :
      (p : ℕ) (us : UserSetting) (t : IntType) (v : ℤ)
      → s.is_inited ≡ false
      → s.is_loaded ≡ false
      → (started z s.subsys).0 ≡ ok tt
      → allocate_all z t1_t11 s.heap ≡ some heap
      → 1 ≤ p
      → p ≤ 8
      → get_elem? at_end.settings p ≡ some us
      → int_type us.setting_type ≡ some t
      → converted t v ≡ v
      → let accepted = validated us.validate_cb us (bytes_of t v) in
        (callbacks_main after (validate_t2_t9 after) z s ≡ done (0, at_end))
        × (us.id ≡ p + 1)
        × (prv_validate_t2_t9 after us.id us.key (bytes_of t v) at_end ≡ done (accepted, at_end))
        × ((accepted ≡ true) ↔ (IsAtMost (pos (us.id * 10)) v × IsAtMost v (pos (us.id * 10 + 9))))
  unfolding callbacks_main
  callbacks_main_lem p us t v fresh unloaded answers room low high here type fits =
      let judge = validate_t2_t9 after in
      let (id, run) =
        verdict_at laws after s.subsys p us (bytes_of t v) at_end refl refl low high here in
      let (verdict, run', exact) =
        prv_validate_t2_t9_lem after at_end p us t v us.key refl
          (map-IsWellFormed (from_storage laws s.subsys) (from_storage-Keeps laws s.subsys)
            (registered_settings after) (registered-IsWellFormed after))
          here (omega (arith, id)) type fits in
      let same : verdict ≡ validated us.validate_cb us (bytes_of t v) =
        ap (λ o. elim o [ done (b, s) ↦ b | fault f ↦ verdict ]) (sym run' ∙ run) in
      let load_it = λ (u : Unit {0}). load z >>= λ _. pure 0 in
      (
        bind_done (init z) s (λ _. add_t1_t11 z >>= λ _. register_callbacks after judge >>= load_it)
              (init_run laws load_laws start_laws s heap fresh unloaded answers room)
            ∙ bind_done (add_t1_t11 z) (after_init z s)
                (λ _. register_callbacks after judge >>= load_it)
                (add_run laws load_laws start_laws s heap fresh unloaded answers room)
            ∙ bind_done (register_callbacks after judge) (after_add z s heap) load_it
                (register_run after (after_add z s heap))
            ∙ bind_done (load z) _ (λ _. pure 0)
                (load_run laws load_laws start_laws s heap fresh unloaded answers room
                  (registered_settings after) (some on_change_global)
                  t1_t11-IsWellFormed.distinct_keys),
        id,
        run,
        subst
            (λ b. (b ≡ true) ↔ (IsAtMost (pos (us.id * 10)) v × IsAtMost v (pos (us.id * 10 + 9))))
            same exact,
      )
