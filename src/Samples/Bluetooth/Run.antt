-- ===== src/Samples/Bluetooth/Run.antt =====
-- What samples/bluetooth_service/src/main.c does when it starts.
use irnas_usersettings_lib.Base.{
  ◌≡◌, ap, ◌∙◌, false, some, map, M, Status, ok, done, fault, Outcome, ◌>>=◌, pure, bind_done,
}
use irnas_usersettings_lib.Platform.{Platform, PlatformLaws}
use irnas_usersettings_lib.State.{State}
use irnas_usersettings_lib.Settings.Init.{init, load}
use irnas_usersettings_lib.Settings.Restart.{LoadLaws}
use irnas_usersettings_lib.Startup.{declared, allocate_all}
use irnas_usersettings_lib.Startup.Init.{StartLaws, started}
use irnas_usersettings_lib.Startup.Ready.{at_start}
use irnas_usersettings_lib.Samples.{add_t1_t11}
use irnas_usersettings_lib.Samples.Start.{after_init, after_add, init_run, add_run, load_run}
use irnas_usersettings_lib.Samples.Settings.{t1_t11, t1_t11-IsWellFormed}
use irnas_usersettings_lib.Samples.Bluetooth.{
  BtHost, Device, in_library, in_radio, ble_start, bluetooth_main,
}

module _ {Subsys Heap Conn Radio A : Type 0} where
  in_library_run :
      (m : M (State Subsys Heap) A) (d : Device Subsys Heap Conn Radio) {a : A}
      {s : State Subsys Heap}
      → m d.library ≡ done (a, s)
      → in_library m d ≡ done (a, record d { library = s })
  in_library_run m d e =
      ap
        (λ o. elim o as (λ _. Outcome (A × Device Subsys Heap Conn Radio)) [
          | done (a, s) ↦ done (a, record d { library = s })
          | fault e ↦ fault e
        ])
        e

module _ {Subsys Heap Conn Radio : Type 0} {z : Platform Subsys Heap} (laws : PlatformLaws z)
    (load_laws : LoadLaws laws) (start_laws : StartLaws laws) (host : BtHost Radio) where
  -- The program, from its first state, when the settings subsystem starts and the heap holds the
  -- eleven settings: it returns 0, each setting is what is stored of it, and the Bluetooth stack is as
  -- ble_start leaves it, whether it succeeds or not.
  pub bluetooth_main_lem :
      (d : Device Subsys Heap Conn Radio) (heap : Heap)
      → d.library.is_inited ≡ false
      → d.library.is_loaded ≡ false
      → (started z d.library.subsys).0 ≡ ok tt
      → allocate_all z t1_t11 d.library.heap ≡ some heap
      → bluetooth_main z host d
        ≡ done (
          0,
          record {
            library = at_start laws load_laws start_laws t1_t11 d.library heap;
            app = record d.app {
              uss = record d.app.uss { radio = (ble_start host d.app.uss.radio).1 };
            };
          },
        )
  unfolding bluetooth_main
  bluetooth_main_lem d heap fresh unloaded answers room =
      let s = d.library in
      let finish = λ (u : Status). in_radio (ble_start host) >>= λ _. pure 0 in
      bind_done (in_library (init z)) d
        (λ _. in_library (add_t1_t11 z) >>= λ _. in_library (load z) >>= finish)
        (in_library_run (init z) d
          (init_run laws load_laws start_laws s heap fresh unloaded answers room))
      ∙ bind_done (in_library (add_t1_t11 z)) (record d { library = after_init z s })
          (λ _. in_library (load z) >>= finish)
          (in_library_run (add_t1_t11 z) (record d { library = after_init z s })
            (add_run laws load_laws start_laws s heap fresh unloaded answers room))
      ∙ bind_done (in_library (load z)) (record d { library = after_add z s heap }) finish
          (in_library_run (load z) (record d { library = after_add z s heap })
            (load_run laws load_laws start_laws s heap fresh unloaded answers room
              (map declared t1_t11) s.global_on_change_cb t1_t11-IsWellFormed.distinct_keys))
