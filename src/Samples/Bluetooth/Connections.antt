-- ===== src/Samples/Bluetooth/Connections.antt =====
-- The references to connections that samples/bluetooth_service/src/main.c and
-- library/bt_service/bt_uss.c hold.
use irnas_usersettings_lib.Base.{
  ℕ, bind_done, ◌∙◌, ◌+◌, ◌≤◌, ◌≡◌, refl, arith, none, some, fault, bad_pointer, done, ◌>>=◌,
}
use irnas_usersettings_lib.BtUss.{BtStack, bt_uss_enable}
use irnas_usersettings_lib.Samples.Bluetooth.{App, connected, disconnected}

-- What the documentation of the Bluetooth stack promises of a connection that is referred to.
pub record ConnLaws {Conn Radio : Type 0} (bt : BtStack Conn Radio) : Type 0 where
  pub refs : Conn → Radio → ℕ
  pub ref_same : (conn : Conn) (r : Radio) → 1 ≤ refs conn r → (bt.bt_conn_ref conn r).0 ≡ some conn
  pub ref_counts :
      (conn : Conn) (r : Radio)
      → 1 ≤ refs conn r
      → refs conn (bt.bt_conn_ref conn r).1 ≡ refs conn r + 1
  pub unref_counts :
      (conn : Conn) (r : Radio)
      → 1 ≤ refs conn r
      → refs conn (bt.bt_conn_unref conn r) + 1 ≡ refs conn r

module _ {Conn Radio : Type 0} {bt : BtStack Conn Radio} (laws : ConnLaws bt) where
  -- The state after a connection was made.
  abbrev joined : Conn → App Conn Radio → App Conn Radio
  joined conn s = record {
    uss = record {
      prv_bt_conn = some conn;
      radio = (bt.bt_conn_ref conn (bt.bt_conn_ref conn s.uss.radio).1).1;
    };
    prv_current_conn = some conn;
  }

  connected_run :
      (conn : Conn) (s : App Conn Radio)
      → 1 ≤ laws.refs conn s.uss.radio
      → (connected bt conn 0 s ≡ done (tt, joined conn s))
        × (laws.refs conn (joined conn s).uss.radio ≡ laws.refs conn s.uss.radio + 2)
  unfolding connected bt_uss_enable
  connected_run conn s alive =
      let r = s.uss.radio in
      let once = laws.ref_counts conn r alive in
      let alive' : 1 ≤ laws.refs conn (bt.bt_conn_ref conn r).1 = omega (arith, once) in
      (
        ground (
          arith,
          laws.ref_same conn r alive,
          laws.ref_same conn (bt.bt_conn_ref conn r).1 alive',
        ),
        omega (arith, once, laws.ref_counts conn (bt.bt_conn_ref conn r).1 alive'),
      )

  -- The state after a disconnection.
  abbrev left_with : Conn → Conn → App Conn Radio → App Conn Radio
  left_with served current s = record s {
    uss = record {
      prv_bt_conn = none;
      radio = bt.bt_conn_unref current (bt.bt_conn_unref served s.uss.radio);
    };
  }

  disconnected_run :
      (conn served current : Conn) (reason : ℕ) (s : App Conn Radio)
      → s.uss.prv_bt_conn ≡ some served
      → s.prv_current_conn ≡ some current
      → disconnected bt conn reason s ≡ done (tt, left_with served current s)
  unfolding disconnected
  disconnected_run conn served current reason s here there = ground arith

  -- A connection is made and then ends: both callbacks return, the program and the service hold as
  -- many references to the connection as before, and the service has none to notify.
  pub connected-disconnected :
      (conn : Conn) (reason : ℕ) (s : App Conn Radio)
      → 1 ≤ laws.refs conn s.uss.radio
      → (s' : App Conn Radio) × ((connected bt conn 0 >>= λ _. disconnected bt conn reason) s
          ≡ done (tt, s'))
        × (laws.refs conn s'.uss.radio ≡ laws.refs conn s.uss.radio)
        × (s'.uss.prv_bt_conn ≡ none)
  connected-disconnected conn reason s alive =
      let (run, two) = connected_run conn s alive in
      let s₁ = joined conn s in
      let r = s₁.uss.radio in
      let once = laws.unref_counts conn r (omega (arith, two)) in
      let twice = laws.unref_counts conn (bt.bt_conn_unref conn r) (omega (arith, two, once)) in
      (
        left_with conn conn s₁,
        bind_done (connected bt conn 0) s (λ _. disconnected bt conn reason) run
            ∙ disconnected_run conn conn conn reason s₁ refl refl,
        omega (arith, two, once, twice),
        refl,
      )

  -- Two connections a and b are made, and both end, a first: the second callback releases a null
  -- pointer, since the service and the program remember only one connection.
  pub disconnected_twice :
      (a b : Conn) (reason : ℕ) (s : App Conn Radio)
      → 1 ≤ laws.refs a s.uss.radio
      → 1 ≤ laws.refs b (bt.bt_conn_ref a (bt.bt_conn_ref a s.uss.radio).1).1
      → (connected bt a 0 >>= λ _.
            connected bt b 0 >>= λ _. disconnected bt a reason >>= λ _. disconnected bt b reason)
          s
        ≡ fault bad_pointer
  unfolding disconnected
  disconnected_twice a b reason s alive_a alive_b =
      let rest = λ (u : Unit {0}). disconnected bt a reason >>= λ _. disconnected bt b reason in
      let s₁ = joined a s in
      let s₂ = joined b s₁ in
      bind_done (connected bt a 0) s (λ _. connected bt b 0 >>= rest) (connected_run a s alive_a).0
      ∙ bind_done (connected bt b 0) s₁ rest (connected_run b s₁ alive_b).0
      ∙ bind_done (disconnected bt a reason) s₂ (λ _. disconnected bt b reason)
          (disconnected_run a b b reason s₂ refl refl)
