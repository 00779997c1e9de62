-- ===== src/Protocol/Executor/Responses.antt =====
-- What library/protocol/executor/user_settings_protocol_executor.c writes in response to the GET and
-- LIST commands, with the binary encoding.
use irnas_usersettings_lib.Base.{
  ℕ, zero, suc, ◌+◌, ◌%◌, ◌≤◌, ◌≡◌, refl, ap, ◌∙◌, sym, Bool, true, false, none, some, [], ◌∷◌,
  ◌++◌, arith, length, length-append, length-drop, take, take-append, drop, get_elem?, Bytes, ltb,
  if◌then◌else◌, enoent, ok, err, Status, Outcome, done, fault, out_of_bounds, pure, bind_done,
  Result,
}
use irnas_usersettings_lib.Setting.{UserSetting, IsSound}
use irnas_usersettings_lib.State.{deref}
use irnas_usersettings_lib.SettingsList.{get_by_id}
use irnas_usersettings_lib.SettingsList.Lookup.{IsWellFormed, get_by_id_self}
use irnas_usersettings_lib.Protocol.Binary.Encode.{encode, encode_full}
use irnas_usersettings_lib.Protocol.Binary.Wire.{sized, wire, wire_full, encode_lem}
use irnas_usersettings_lib.Protocol.Binary.Full.{encode_full_lem}
use irnas_usersettings_lib.Protocol.Executor.{
  EncodeFn, Exec, binary_executor, respond, send, with_library, encode_response, written,
  eio_if_error, get_found, prv_exec_get_common,
}

-- The two forms of a setting and their encoders; `true` is the full form.
abbrev pub form : Bool → UserSetting → Bytes
form true us = wire_full us
form false us = wire us

abbrev pub encoder : Bool → EncodeFn
encoder true = encode_full
encoder false = encode

-- What the full form adds.
abbrev full_rest : UserSetting → Bytes
full_rest us =
    sized us.default_is_set us.default_value_len us.default_value ++ us.max_size % 256 ∷ []

-- The setting is sound and its encoding fits into `len` bytes.
abbrev pub Fits : ℕ → Bool → UserSetting → Type 0
Fits len full us = IsSound us × (length (form full us) ≤ len)

drop-nil : (n : ℕ) → drop {A = ℕ} n [] ≡ []
drop-nil zero = refl
drop-nil (suc n) = refl

drop-drop : (m n : ℕ) (bs : Bytes) → drop m (drop n bs) ≡ drop (n + m) bs
drop-drop m zero bs = ap (λ k. drop k bs) (omega arith)
drop-drop m (suc n) [] = drop-nil m ∙ sym (drop-nil (suc n + m))
drop-drop m (suc n) (b ∷ bs) =
    let e : suc (n + m) ≡ suc n + m = omega arith in drop-drop m n bs ∙ ap (λ k. drop k (b ∷ bs)) e

pub encoder_lem :
    (len : ℕ) (full : Bool) (us : UserSetting) (buffer : Bytes)
    → Fits len full us
    → len ≤ length buffer
    → encoder full us len (record { written = []; space = buffer })
      ≡ done (
        ok (length (form full us)),
        record { written = form full us; space = drop (length (form full us)) buffer },
      )
encoder_lem len false us buffer (sound, fits) room = (encode_lem us sound len buffer room).1 fits
encoder_lem len true us buffer (sound, fits) room =
    (encode_full_lem us sound len buffer room).1 fits
    ∙ ap
        (λ space.
          done (ok (length (wire_full us)), record { written = wire_full us; space = space }))
        (drop-drop (length (full_rest us)) (length (wire us)) buffer
          ∙ ap (λ k. drop k buffer) (sym (length-append (wire us) (full_rest us))))

module _ {Subsys Heap Transport : Type 0} where
  -- The response buffer has the length that the executor is told.
  abbrev pub HasBuffer : ℕ → Exec Subsys Heap Transport → Type 0
  HasBuffer len e = length e.resp_buffer ≡ len

  -- After the execution: the status and the transport are as said, and the library is as it was.
  abbrev pub Responds :
      ℕ
      → Outcome (Status × Exec Subsys Heap Transport)
      → Exec Subsys Heap Transport
      → Status × Transport
      → Type 0
  Responds len o e st =
      (e' : Exec Subsys Heap Transport) × (o ≡ done (st.0, e'))
      × (e'.library ≡ e.library)
      × (e'.transport ≡ st.1)
      × HasBuffer len e'

  pub with_library-deref :
      (p : ℕ) (e : Exec Subsys Heap Transport) {us : UserSetting}
      → get_elem? e.library.settings p ≡ some us
      → with_library (deref p) e ≡ done (us, e)
  with_library-deref p e at = rw (at, with_library)

module _ {Subsys Heap Transport : Type 0}
    (write_response : Bytes → Transport → Result ℕ × Transport) (len : ℕ) (full : Bool) where
  encode_response_lem :
      (us : UserSetting) (e : Exec Subsys Heap Transport)
      → Fits len full us
      → HasBuffer len e
      → encode_response (binary_executor write_response len) (encoder full) us e
        ≡ done (
          ok (length (form full us)),
          record e { resp_buffer = form full us ++ drop (length (form full us)) e.resp_buffer },
        )
  encode_response_lem us e fits room =
      ap
        (λ o. elim o [
          | done (r, w) ↦ done (r, record e { resp_buffer = w.written ++ w.space })
          | fault f ↦ fault f
        ])
        (encoder_lem len full us e.resp_buffer fits (omega (arith, room)))

  -- What has been sent, and what the buffer holds.
  sent : Bytes → Bytes → Exec Subsys Heap Transport → Result ℕ × Exec Subsys Heap Transport
  sent bs buffer e = (
    (write_response bs e.transport).0,
    record e { resp_buffer = buffer; transport = (write_response bs e.transport).1 },
  )

  send_lem :
      (bs rest : Bytes) (e : Exec Subsys Heap Transport)
      → send
          (binary_executor write_response len)
          (length bs)
          (record e { resp_buffer = bs ++ rest })
        ≡ done (sent bs (bs ++ rest) e)
  unfolding sent
  send_lem bs rest e =
      let fits : ltb (length (bs ++ rest)) (length bs) ≡ false =
        ground (arith, length-append bs rest) in
      ap
        (λ b.
          if b
          then fault out_of_bounds
          else done (sent (take (length bs) (bs ++ rest)) (bs ++ rest) e))
        fits
      ∙ ap (λ sent_bytes. done (sent sent_bytes (bs ++ rest) e)) (take-append bs rest)

  pub respond_lem :
      (us : UserSetting) (e : Exec Subsys Heap Transport)
      → Fits len full us
      → HasBuffer len e
      → respond (binary_executor write_response len) (encoder full) us e
        ≡ done (
          eio_if_error (write_response (form full us) e.transport).0,
          record e {
            resp_buffer = form full us ++ drop (length (form full us)) e.resp_buffer;
            transport = (write_response (form full us) e.transport).1;
          },
        )
  unfolding respond sent
  respond_lem us e fits room =
      let bs = form full us in
      let rest = drop (length bs) e.resp_buffer in
      bind_done (encode_response (binary_executor write_response len) (encoder full) us) e
        (written (binary_executor write_response len)) (encode_response_lem us e fits room)
      ∙ bind_done (send (binary_executor write_response len) (length bs))
          (record e { resp_buffer = bs ++ rest }) (λ r. pure (eio_if_error r)) (send_lem bs rest e)

  -- The execution after a response was written.
  unfoldable pub after : UserSetting → Exec Subsys Heap Transport → Exec Subsys Heap Transport
  after us e = record e {
    resp_buffer = form full us ++ drop (length (form full us)) e.resp_buffer;
    transport = (write_response (form full us) e.transport).1;
  }

  pub after-HasBuffer :
      (us : UserSetting) (e : Exec Subsys Heap Transport)
      → Fits len full us
      → HasBuffer len e
      → HasBuffer len (after us e)
  unfolding after
  after-HasBuffer us e fits room = omega (
    arith,
    length-append (form full us) (drop (length (form full us)) e.resp_buffer),
    length-drop (length (form full us)) e.resp_buffer,
    fits.1,
  )

  get_common-none :
      (id : ℕ) (e : Exec Subsys Heap Transport)
      → get_by_id id e.library.settings ≡ none
      → prv_exec_get_common (binary_executor write_response len) (encoder full) id e
        ≡ done (err enoent, e)
  unfolding prv_exec_get_common
  get_common-none id e miss = rw miss

  -- GET and GET FULL with the binary encoding, in a well-formed list: for the ID of a setting whose
  -- encoding fits into the response buffer, that encoding is written as the one response, the
  -- result is -EIO if the transport refuses it and else 0, and the settings are left alone.
  pub get_common-Responds :
      (e : Exec Subsys Heap Transport) (p : ℕ) (us : UserSetting)
      → IsWellFormed e.library.settings
      → HasBuffer len e
      → get_elem? e.library.settings p ≡ some us
      → Fits len full us
      → Responds len
          (prv_exec_get_common (binary_executor write_response len) (encoder full) us.id e)
          e
          (
            eio_if_error (write_response (form full us) e.transport).0,
            (write_response (form full us) e.transport).1,
          )
  unfolding prv_exec_get_common after
  get_common-Responds e p us w room at fits = (
    after us e,
    ap (λ found. get_found (binary_executor write_response len) (encoder full) found e)
          (get_by_id_self p us w at)
        ∙ bind_done (with_library (deref p)) e _ (with_library-deref p e at)
        ∙ respond_lem us e fits room,
    refl,
    refl,
    after-HasBuffer us e fits room,
  )
