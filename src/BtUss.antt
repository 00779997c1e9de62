-- ===== src/BtUss.antt =====
-- library/bt_service/bt_uss.c: the binary protocol behind a Bluetooth characteristic. The Bluetooth
-- stack is a parameter.
pub mod Writes
use irnas_usersettings_lib.Base.{
  ℕ, ◌^◌, ◌<◌, ◌≡◌, refl, ap, ◌∙◌, true, false, Bool, Option, none, some, get_elem?, Bytes,
  if◌then◌else◌, Errno, eio, enoent, eproto, enotconn, ok, err, Status, done, fault, bad_pointer, M,
  ◌>>=◌, pure, bind_done, Result,
}
use irnas_usersettings_lib.Setting.{UserSetting}
use irnas_usersettings_lib.Platform.{Platform}
use irnas_usersettings_lib.SettingsList.Lookup.{IsWellFormed}
use irnas_usersettings_lib.Protocol.Binary.Wire.{wire}
use irnas_usersettings_lib.Protocol.Binary.Requests.{one, request_bytes}
use irnas_usersettings_lib.Protocol.Executor.{
  Exec, UspExecutor, binary_executor, parse_and_execute, eio_if_error,
}
use irnas_usersettings_lib.Protocol.Executor.Responses.{Fits, HasBuffer, get_common-Responds}
use irnas_usersettings_lib.Protocol.Executor.Requests.{parse_and_execute-serve}

-- What is called of the Bluetooth stack, whose state has type `Radio`.
pub record BtStack (Conn Radio : Type 0) : Type 0 where
  pub bt_conn_ref : Conn → Radio → Option Conn × Radio
  pub bt_conn_unref : Conn → Radio → Radio
  pub bt_gatt_is_subscribed : Conn → Radio → Bool
  pub bt_gatt_notify : Conn → Bytes → Radio → Status × Radio

pub record BtState (Conn Radio : Type 0) : Type 0 where
  pub prv_bt_conn : Option Conn
  pub radio : Radio

-- The ATT error codes that a write is refused with.
pub data AttError : Type 0 where
  attribute_not_found not_supported unlikely : AttError

-- What a write callback returns: the number of bytes, or an error.
pub data WriteResult : Type 0 where
  accepted : ℕ → WriteResult
  refused : AttError → WriteResult

abbrev pub zero_or_eio : Status → Result ℕ
zero_or_eio (ok t) = ok 0
zero_or_eio (err e) = err eio

module _ {Conn Radio : Type 0} (bt : BtStack Conn Radio) where
  abbrev pub notify : Option Conn → Bytes → BtState Conn Radio → Result ℕ × BtState Conn Radio
  notify none bs s = (err enotconn, s)
  notify (some conn) bs s =
      if bt.bt_gatt_is_subscribed conn s.radio
      then (
        zero_or_eio (bt.bt_gatt_notify conn bs s.radio).0,
        record s { radio = (bt.bt_gatt_notify conn bs s.radio).1 },
      )
      else (err enotconn, s)

  unfoldable pub prv_send_notification : Bytes → BtState Conn Radio → Result ℕ × BtState Conn Radio
  prv_send_notification bs s = notify s.prv_bt_conn bs s

  unfoldable pub bt_uss_enable : Conn → BtState Conn Radio → BtState Conn Radio
  bt_uss_enable conn s = record {
    prv_bt_conn = (bt.bt_conn_ref conn s.radio).0;
    radio = (bt.bt_conn_ref conn s.radio).1;
  }

  -- A connection that is not there cannot be released.
  unfoldable pub bt_uss_disable : M (BtState Conn Radio) (Unit {0})
  bt_uss_disable s = elim s.prv_bt_conn [
    | none ↦ fault bad_pointer
    | some conn ↦ done (tt, record { prv_bt_conn = none; radio = bt.bt_conn_unref conn s.radio })
  ]

  abbrev pub prv_usp_binary_executor : UspExecutor (BtState Conn Radio)
  prv_usp_binary_executor = binary_executor prv_send_notification 512

  send_subscribed :
      (conn : Conn) (bs : Bytes) (s : BtState Conn Radio)
      → s.prv_bt_conn ≡ some conn
      → bt.bt_gatt_is_subscribed conn s.radio ≡ true
      → prv_send_notification bs s ≡ (
        zero_or_eio (bt.bt_gatt_notify conn bs s.radio).0,
        record s { radio = (bt.bt_gatt_notify conn bs s.radio).1 },
      )
  unfolding prv_send_notification
  send_subscribed conn bs s connected subscribed =
      ap (λ c. notify c bs s) connected
      ∙ ap
          (λ b.
            if b
            then (
              zero_or_eio (bt.bt_gatt_notify conn bs s.radio).0,
              record s { radio = (bt.bt_gatt_notify conn bs s.radio).1 },
            )
            else (err enotconn, s))
          subscribed

-- The `switch` over the error.
abbrev pub att_error : Errno → AttError
att_error enoent = attribute_not_found
att_error eproto = not_supported
att_error _ = unlikely

eio_twice : (r : Status) → eio_if_error (zero_or_eio r) ≡ eio_if_error r
eio_twice (ok t) = refl
eio_twice (err e) = refl

abbrev pub write_result : ℕ → Status → WriteResult
write_result len (ok t) = accepted len
write_result len (err e) = refused (att_error e)

module _ {Subsys Heap Conn Radio : Type 0} (z : Platform Subsys Heap)
    (bt : BtStack Conn Radio) where
  unfoldable pub prv_on_receive_write :
      Bytes → ℕ → M (Exec Subsys Heap (BtState Conn Radio)) WriteResult
  prv_on_receive_write buf len = do
    r ← parse_and_execute z (prv_usp_binary_executor bt) buf len
    pure (write_result len r)

  -- A client that is connected and subscribed and writes a GET for a setting of a well-formed list,
  -- whose encoding fits into the response buffer of 512 bytes: the encoding is handed to
  -- bt_gatt_notify as the one notification. The write is accepted if that succeeds, and refused with
  -- the ATT error "unlikely" if it does not; the settings are left alone.
  pub prv_on_receive_write-get :
      (e : Exec Subsys Heap (BtState Conn Radio)) (p : ℕ) (us : UserSetting) (conn : Conn)
      → IsWellFormed e.library.settings
      → HasBuffer 512 e
      → get_elem? e.library.settings p ≡ some us
      → Fits 512 false us
      → us.id < 2 ^ 16
      → e.transport.prv_bt_conn ≡ some conn
      → bt.bt_gatt_is_subscribed conn e.transport.radio ≡ true
      → let r = bt.bt_gatt_notify conn (wire us) e.transport.radio in
        (e' : Exec Subsys Heap (BtState Conn Radio)) × (prv_on_receive_write
            (request_bytes (one false us.id))
            3
            e
          ≡ done (write_result 3 (eio_if_error r.0), e'))
        × (e'.library ≡ e.library)
        × (e'.transport.radio ≡ r.1)
  unfolding prv_on_receive_write
  prv_on_receive_write-get e p us conn w room at fits id_fits connected subscribed =
      let sent = send_subscribed bt conn (wire us) e.transport connected subscribed in
      let (e', run, same_library, same_transport, room') =
        get_common-Responds (prv_send_notification bt) 512 false e p us w room at fits in
      (
        e',
        bind_done
              (parse_and_execute z (prv_usp_binary_executor bt) (request_bytes (one false us.id)) 3)
              e (λ r. pure (write_result 3 r))
              (parse_and_execute-serve z (prv_send_notification bt) 512 (one false us.id) e id_fits
                ∙ run)
            ∙ ap (λ st. done (write_result 3 (eio_if_error st.0), e')) sent
            ∙ ap (λ r. done (write_result 3 r, e'))
                (eio_twice (bt.bt_gatt_notify conn (wire us) e.transport.radio).0),
        same_library,
        ap (λ t. t.radio) same_transport ∙ ap (λ st. st.1.radio) sent,
      )
