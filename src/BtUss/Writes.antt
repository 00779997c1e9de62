-- ===== src/BtUss/Writes.antt =====
-- What a Bluetooth client gets for a SET: prv_on_receive_write of library/bt_service/bt_uss.c over
-- prv_exec_set of library/protocol/executor/user_settings_protocol_executor.c.
use irnas_usersettings_lib.Base.{
  ℕ, ◌<◌, ◌≤◌, ◌≡◌, refl, ap, ◌∙◌, arith, true, false, Option, none, some, [], ◌∷◌, All-get,
  find_index-some, lt_of_get_elem?, length, get_elem?, Bytes, Status, ok, err, enoent, done, M,
  ◌>>=◌, pure, bind_done, ◌==◌,
}
use irnas_usersettings_lib.Setting.{UserSetting, IsSound}
use irnas_usersettings_lib.Platform.{Platform, PlatformLaws, value_sh, changed_sh, full_name}
use irnas_usersettings_lib.State.{State}
use irnas_usersettings_lib.SettingsList.{get_by_id}
use irnas_usersettings_lib.SettingsList.Lookup.{get_by_id_self}
use irnas_usersettings_lib.Settings.Handlers.{with_value}
use irnas_usersettings_lib.Settings.Saving.{IsReady}
use irnas_usersettings_lib.Settings.Values.{same_value}
use irnas_usersettings_lib.Settings.Change.{validated, set_with_id, prv_user_settings_set}
use irnas_usersettings_lib.Settings.Query.{exists_with_id}
use irnas_usersettings_lib.Settings.Safety.{set-Returns}
use irnas_usersettings_lib.Settings.SetGet.{set-HasNewValue}
use irnas_usersettings_lib.Protocol.Binary.Wire.{wire}
use irnas_usersettings_lib.Protocol.Binary.Requests.{one, set, request_bytes, IsEncodable}
use irnas_usersettings_lib.Protocol.Executor.{
  Exec, parse_and_execute, prv_exec_set, enoexec_if_error, eio_if_error,
}
use irnas_usersettings_lib.Protocol.Executor.Responses.{HasBuffer}
use irnas_usersettings_lib.Protocol.Executor.Requests.{parse_and_execute-serve}
use irnas_usersettings_lib.BtUss.{
  BtStack, BtState, WriteResult, accepted, refused, attribute_not_found, unlikely, write_result,
  prv_send_notification, prv_usp_binary_executor, prv_on_receive_write, prv_on_receive_write-get,
}

-- What the client gets for what the setter returned.
abbrev pub answer : ℕ → Status → WriteResult
answer len (ok t) = accepted len
answer len (err e) = refused unlikely

answer-write_result : (len : ℕ) (r : Status) → write_result len (enoexec_if_error r) ≡ answer len r
answer-write_result len (ok t) = refl
answer-write_result len (err e) = refl

-- A setting after its value was set.
abbrev pub set_to : Bytes → UserSetting → UserSetting
set_to bs us = record (with_value bs us) { has_changed_recently = true }

-- A SET of a value.
abbrev pub set_bytes : ℕ → Bytes → Bytes
set_bytes id bs = request_bytes (set false id bs)

module _ {Subsys Heap Conn Radio : Type 0} (z : Platform Subsys Heap)
    (bt : BtStack Conn Radio) where
  abbrev pub receive_set : ℕ → Bytes → M (Exec Subsys Heap (BtState Conn Radio)) WriteResult
  receive_set id bs = prv_on_receive_write z bt (set_bytes id bs) (length (set_bytes id bs))

  receive_set_run :
      (id : ℕ) (bs : Bytes) (e e' : Exec Subsys Heap (BtState Conn Radio)) (r : Status)
      → IsEncodable (set false id bs)
      → prv_exec_set z id bs e ≡ done (r, e')
      → receive_set id bs e ≡ done (write_result (length (set_bytes id bs)) r, e')
  unfolding prv_on_receive_write
  receive_set_run id bs e e' r h run =
      bind_done
        (parse_and_execute z (prv_usp_binary_executor bt) (set_bytes id bs)
          (length (set_bytes id bs)))
        e (λ r. pure (write_result (length (set_bytes id bs)) r))
        (parse_and_execute-serve z (prv_send_notification bt) 512 (set false id bs) e h ∙ run)

  unknown_run :
      (id : ℕ) (bs : Bytes) (e : Exec Subsys Heap (BtState Conn Radio))
      → e.library.is_loaded ≡ true
      → get_by_id id e.library.settings ≡ none
      → prv_exec_set z id bs e ≡ done (err enoent, e)
  unfolding prv_exec_set exists_with_id
  unknown_run id bs e loaded missing = ground arith

  known_run :
      (id p : ℕ) (bs : Bytes) (e : Exec Subsys Heap (BtState Conn Radio)) (r : Status)
      (s' : State Subsys Heap)
      → e.library.is_loaded ≡ true
      → get_by_id id e.library.settings ≡ some p
      → prv_user_settings_set z p bs e.library ≡ done (r, s')
      → prv_exec_set z id bs e ≡ done (enoexec_if_error r, record e { library = s' })
  unfolding prv_exec_set exists_with_id set_with_id
  known_run id p bs e r s' loaded found run = ground arith

module _ {Subsys Heap Conn Radio : Type 0} {z : Platform Subsys Heap} (laws : PlatformLaws z)
    (bt : BtStack Conn Radio) (e : Exec Subsys Heap (BtState Conn Radio))
    (ready : IsReady laws e.library) where
  -- What happens for a setting at a position, or for none.
  abbrev pub Answers : ℕ → Bytes → Option ℕ → Type 0
  Answers id bs none = receive_set z bt id bs e ≡ done (refused attribute_not_found, e)
  Answers id bs (some p) =
      (r : Status) × (s' : State Subsys Heap) × (prv_user_settings_set z p bs e.library
        ≡ done (r, s'))
      × (receive_set z bt id bs e
          ≡ done (answer (length (set_bytes id bs)) r, record e { library = s' }))
      × IsReady laws s'

  -- In a library in order (IsReady), a Bluetooth client writes a SET of 1 to 255 bytes. If no
  -- setting has the ID, the write is refused with the ATT error "attribute not found", and nothing
  -- changes. Otherwise prv_user_settings_set returns for that setting and these bytes; the write is
  -- accepted if it returned 0, and refused with the ATT error "unlikely" for any error; the library is
  -- as it left it, in order, and nothing is sent.
  pub prv_on_receive_write-Answers :
      (id : ℕ) (bs : Bytes)
      → IsEncodable (set false id bs)
      → Answers id bs (get_by_id id e.library.settings)
  unfolding get_by_id
  prv_on_receive_write-Answers id bs h = go (get_by_id id e.library.settings) refl
    where
      go : (o : Option ℕ) → get_by_id id e.library.settings ≡ o → Answers id bs o
      go none missing =
          receive_set_run z bt id bs e e (err enoent) h
            (unknown_run z bt id bs e ready.loaded missing)
      go (some p) found =
          let (us, here, pass) = find_index-some (λ us. id == us.id) e.library.settings found in
          let n = length e.library.settings in
          let (r, s', run, i) =
            set-Returns laws n p (lt_of_get_elem? e.library.settings p here) bs e.library
              (ready, refl) in
          (
            r,
            s',
            run,
            receive_set_run z bt id bs e (record e { library = s' }) (enoexec_if_error r) h
                  (known_run z bt id p bs e r s' ready.loaded found run)
                ∙ ap (λ w. done (w, record e { library = s' }))
                    (answer-write_result (length (set_bytes id bs)) r),
            i.0,
          )

  -- In a library in order (IsReady), with a storage that saves everything, a subscribed Bluetooth
  -- client writes a SET of 1 to 255 bytes that fit, differ from the value and are valid, and then a
  -- GET of the same ID: the one notification is the encoding of the setting with exactly these bytes
  -- as its value, if that encoding has at most 512 bytes; the second write is accepted if
  -- bt_gatt_notify succeeds, and refused with "unlikely" if not.
  pub set_then_get :
      (p : ℕ) (us : UserSetting) (conn : Conn) (b : ℕ) (bs : Bytes)
      → get_elem? e.library.settings p ≡ some us
      → length (b ∷ bs) ≤ us.max_size
      → length (b ∷ bs) < 256
      → same_value us (b ∷ bs) ≡ false
      → validated us.validate_cb us (b ∷ bs) ≡ true
      → ((name bs : Bytes) (sub : Subsys) → (z.settings_save_one name bs sub).0 ≡ ok tt)
      → HasBuffer 512 e
      → length (wire (set_to (b ∷ bs) us)) ≤ 512
      → e.transport.prv_bt_conn ≡ some conn
      → bt.bt_gatt_is_subscribed conn e.transport.radio ≡ true
      → let r = bt.bt_gatt_notify conn (wire (set_to (b ∷ bs) us)) e.transport.radio in
        (e' : Exec Subsys Heap (BtState Conn Radio)) × ((receive_set z bt us.id (b ∷ bs) >>= λ _.
        prv_on_receive_write z bt (request_bytes (one false us.id)) 3)
            e
          ≡ done (write_result 3 (eio_if_error r.0), e'))
        × (e'.transport.radio ≡ r.1)
  set_then_get p us conn b bs here fits small differs valid saves room wire_fits connected
        subscribed =
      let us' = set_to (b ∷ bs) us in
      let (s', run, new) =
        set-HasNewValue laws p us e.library ready here b bs fits
          (saves (full_name value_sh us.key) (b ∷ bs) e.library.subsys) differs valid
          (saves (full_name changed_sh us.key) (1 ∷ []) _) in
      let e₁ = record e { library = s' } in
      let id_fits = (All-get IsSound e.library.settings p ready.well_formed.sound here).id_fits in
      let sound' = All-get IsSound s'.settings p new.ready.well_formed.sound new.setting in
      let found = get_by_id_self p us ready.well_formed here in
      let sent =
        receive_set_run z bt us.id (b ∷ bs) e e₁ (ok tt) (id_fits, omega arith, small)
          (known_run z bt us.id p (b ∷ bs) e (ok tt) s' ready.loaded found run) in
      let (e', got, same_library, radio) =
        prv_on_receive_write-get z bt e₁ p us' conn new.ready.well_formed room new.setting
          (sound', wire_fits) id_fits connected subscribed in
      (
        e',
        bind_done (receive_set z bt us.id (b ∷ bs)) e
              (λ _. prv_on_receive_write z bt (request_bytes (one false us.id)) 3) sent
            ∙ got,
        radio,
      )
