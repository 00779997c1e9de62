-- ===== src/Samples/Bluetooth.antt =====
-- The program samples/bluetooth_service/src/main.c: its callbacks for connections, and how it starts
-- Bluetooth. The Bluetooth stack is a parameter.
pub mod Connections
pub mod Run
use irnas_usersettings_lib.Base.{
  ℕ, Option, none, some, Status, ok, err, fault, bad_pointer, done, M, ◌>>=◌, ◌>>◌, pure, update,
  ◌==◌, if◌then◌else◌,
}
use irnas_usersettings_lib.Platform.{Platform}
use irnas_usersettings_lib.State.{State}
use irnas_usersettings_lib.Settings.Init.{init, load}
use irnas_usersettings_lib.Samples.{add_t1_t11}
use irnas_usersettings_lib.BtUss.{BtStack, BtState, bt_uss_enable, bt_uss_disable}

-- What else is called of the Bluetooth stack.
pub record BtHost (Radio : Type 0) : Type 0 where
  pub bt_enable : Radio → Status × Radio
  pub bt_conn_cb_register : Radio → Radio
  pub bt_le_adv_start : Radio → Status × Radio

-- The state of the service and the static variable of the program.
pub record App (Conn Radio : Type 0) : Type 0 where
  pub uss : BtState Conn Radio
  pub prv_current_conn : Option Conn

module _ {Conn Radio : Type 0} (bt : BtStack Conn Radio) where
  abbrev pub with_radio : Radio → App Conn Radio → App Conn Radio
  with_radio radio s = record s { uss = record s.uss { radio = radio } }

  -- prv_current_conn = bt_conn_ref(conn)
  abbrev pub keep_conn : Conn → App Conn Radio → App Conn Radio
  keep_conn conn s =
      let r = bt.bt_conn_ref conn s.uss.radio in
      record (with_radio r.1 s) { prv_current_conn = r.0 }

  -- bt_uss_enable(prv_current_conn), which takes a reference to the connection it is given
  unfoldable pub enable_current : M (App Conn Radio) (Unit {0})
  unfolding bt_uss_enable
  enable_current s = elim s.prv_current_conn [
    | none ↦ fault bad_pointer
    | some conn ↦ done (tt, record s { uss = bt_uss_enable bt conn s.uss })
  ]

  unfoldable pub connected : Conn → ℕ → M (App Conn Radio) (Unit {0})
  unfolding enable_current
  connected conn error =
      if error == 0 then (do update (keep_conn conn); enable_current) else pure tt

  unfoldable pub disable_uss : M (App Conn Radio) (Unit {0})
  unfolding bt_uss_disable
  disable_uss s = elim (bt_uss_disable bt s.uss) [
    | done (r, uss) ↦ done (r, record s { uss = uss })
    | fault e ↦ fault e
  ]

  -- if (prv_current_conn) { bt_conn_unref(prv_current_conn); }
  unfoldable pub release_current : M (App Conn Radio) (Unit {0})
  release_current s = elim s.prv_current_conn [
    | none ↦ done (tt, s)
    | some conn ↦ done (tt, with_radio (bt.bt_conn_unref conn s.uss.radio) s)
  ]

  -- The connection that is given is only logged.
  unfoldable pub disconnected : Conn → ℕ → M (App Conn Radio) (Unit {0})
  unfolding disable_uss release_current
  disconnected conn reason = do disable_uss; release_current

unfoldable pub ble_start : {Radio : Type 0} → BtHost Radio → Radio → Status × Radio
ble_start host radio =
    let enabled = host.bt_enable radio in
    elim enabled.0 [
      | err e ↦ (err e, enabled.1)
      | ok t ↦
          let advertised = host.bt_le_adv_start (host.bt_conn_cb_register enabled.1) in
          elim advertised.0 [ err e ↦ (err e, advertised.1) | ok t ↦ (ok tt, advertised.1) ]
    ]

-- The library, and the service with the program.
pub record Device (Subsys Heap Conn Radio : Type 0) : Type 0 where
  pub library : State Subsys Heap
  pub app : App Conn Radio

module _ {Subsys Heap Conn Radio : Type 0} where
  abbrev pub in_library :
      {A : Type 0} → M (State Subsys Heap) A → M (Device Subsys Heap Conn Radio) A
  in_library m d = elim (m d.library) [
    | done (a, s) ↦ done (a, record d { library = s })
    | fault e ↦ fault e
  ]

  -- A call that changes the state of the Bluetooth stack.
  abbrev pub in_radio : (Radio → Status × Radio) → M (Device Subsys Heap Conn Radio) Status
  in_radio f d =
      let r = f d.app.uss.radio in
      done (r.0, record d { app = record d.app { uss = record d.app.uss { radio = r.1 } } })

  unfoldable pub bluetooth_main :
      Platform Subsys Heap → BtHost Radio → M (Device Subsys Heap Conn Radio) ℕ
  unfolding add_t1_t11 ble_start
  bluetooth_main z host = do
    e ← in_library (init z)
    in_library (add_t1_t11 z)
    in_library (load z)
    e ← in_radio (ble_start host)
    pure 0
