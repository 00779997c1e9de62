-- ===== src/Samples/Start.antt =====
-- The steps that the programs in samples/ share: user_settings_init, the eleven additions, and
-- user_settings_load with whatever callbacks have been registered in between.
use irnas_usersettings_lib.Base.{
  ℕ, ◌≡◌, refl, ap, ◌∙◌, true, false, Option, some, List, [], map, Distinct, M, ok, done,
}
use irnas_usersettings_lib.Setting.{UserSetting}
use irnas_usersettings_lib.Platform.{Platform, PlatformLaws}
use irnas_usersettings_lib.State.{State}
use irnas_usersettings_lib.SettingsList.Lookup.{keys}
use irnas_usersettings_lib.Settings.Init.{init, load}
use irnas_usersettings_lib.Settings.Restart.{LoadLaws, from_storage, load-from_storage}
use irnas_usersettings_lib.Startup.{declared, allocate_all}
use irnas_usersettings_lib.Startup.Init.{
  StartLaws, started, started-registered, started-stored, init_ok,
}
use irnas_usersettings_lib.Startup.Loaded.{from_storage_cong}
use irnas_usersettings_lib.Startup.Ready.{declared_run}
use irnas_usersettings_lib.Samples.{add_t1_t11}
use irnas_usersettings_lib.Samples.Settings.{
  t1_t11, add_t1_t11-declare_all, t1_t11-IsProper, t1_t11-IsWellFormed,
}

module _ {Subsys Heap : Type 0} (z : Platform Subsys Heap) (s : State Subsys Heap) where
  abbrev pub after_init : State Subsys Heap
  after_init = record s { settings = []; subsys = (started z s.subsys).1; is_inited = true }

  abbrev pub after_add : Heap → State Subsys Heap
  after_add heap = record after_init { settings = map declared t1_t11; heap = heap }

module _ {Subsys Heap : Type 0} {z : Platform Subsys Heap} (laws : PlatformLaws z)
    (load_laws : LoadLaws laws) (start_laws : StartLaws laws) (s : State Subsys Heap) (heap : Heap)
    (fresh : s.is_inited ≡ false) (unloaded : s.is_loaded ≡ false)
    (answers : (started z s.subsys).0 ≡ ok tt)
    (room : allocate_all z t1_t11 s.heap ≡ some heap) where
  pub init_run : init z s ≡ done (ok tt, after_init z s)
  init_run = init_ok z s fresh answers

  pub add_run : add_t1_t11 z (after_init z s) ≡ done (tt, after_add z s heap)
  add_run =
      ap (λ (m : M (State Subsys Heap) (Unit {0})). m (after_init z s)) (add_t1_t11-declare_all z)
      ∙ declared_run laws load_laws start_laws t1_t11 s t1_t11-IsProper t1_t11-IsWellFormed fresh
          unloaded heap room

  pub load_run :
      (l : List UserSetting) (change : Option ℕ)
      → Distinct (keys l)
      → load z (record (after_add z s heap) { settings = l; global_on_change_cb = change })
        ≡ done (
          ok tt,
          record (after_add z s heap) {
            settings = map (from_storage laws s.subsys) l;
            global_on_change_cb = change;
            is_loaded = true;
          },
        )
  load_run l change distinct =
      let s₂ = record (after_add z s heap) { settings = l; global_on_change_cb = change } in
      load-from_storage laws load_laws s₂ refl unloaded distinct
        (started-registered laws start_laws s.subsys answers)
      ∙ ap (λ f. done (ok tt, record s₂ { settings = map f l; is_loaded = true }))
          (from_storage_cong laws s.subsys (started z s.subsys).1
            (λ name. started-stored laws start_laws name s.subsys))
