-- ===== src/Protocol/Executor/Listing.antt =====
-- The loop of prv_exec_list_common in library/protocol/executor/user_settings_protocol_executor.c.
use irnas_usersettings_lib.Base.{
  ℕ, suc, ◌≡◌, refl, ◌∙◌, Bool, none, some, List, [], ◌∷◌, map, length, drop, drop_cons, get_elem?,
  All, Bytes, eio, ok, err, Status, done, M, ◌>>=◌, bind_done, Result,
}
use irnas_usersettings_lib.Setting.{UserSetting}
use irnas_usersettings_lib.State.{deref}
use irnas_usersettings_lib.SettingsList.{IterCtx, iter_next}
use irnas_usersettings_lib.Settings.Changed.{before, iter_next-before, iter_next_done}
use irnas_usersettings_lib.Protocol.Executor.{
  Exec, binary_executor, respond, with_library, eio_if_error, unless_failed, list_loop,
  prv_exec_list_common,
}
use irnas_usersettings_lib.Protocol.Executor.Responses.{
  form, encoder, Fits, HasBuffer, Responds, after, after-HasBuffer, respond_lem, with_library-deref,
}

module _ {Transport : Type 0} (write_response : Bytes → Transport → Result ℕ × Transport) where
  -- Responses are written one by one, up to the first that fails.
  unfoldable pub write_all : List Bytes → Transport → Status × Transport
  write_all [] t = (ok tt, t)
  write_all (bs ∷ rest) t =
      let (r, t') = write_response bs t in
      let (r', t'') = write_all rest t' in elim r [ ok u ↦ (r', t'') | err e ↦ (err eio, t') ]

module _ {Subsys Heap Transport : Type 0}
    (write_response : Bytes → Transport → Result ℕ × Transport) (len : ℕ) (full : Bool) where
  -- After a response: the rest of the loop, or the end.
  list_rest :
      (r : Result ℕ) (e : Exec Subsys Heap Transport) (next : M (Exec Subsys Heap Transport) Status)
      (rest : List Bytes)
      → HasBuffer len e
      → Responds len (next e) e (write_all write_response rest e.transport)
      → Responds len
          (unless_failed (binary_executor write_response len) (eio_if_error r) next e)
          e
          (elim r [
            | ok u ↦ write_all write_response rest e.transport
            | err e' ↦ (err eio, e.transport)
          ])
  list_rest (ok u) e next rest room h = h
  list_rest (err e') e next rest room h = (e, refl, refl, refl, room)

  list_round :
      (us : UserSetting) (e : Exec Subsys Heap Transport)
      (next : M (Exec Subsys Heap Transport) Status) (rest : List Bytes)
      → Fits len full us
      → HasBuffer len e
      → Responds len
          (next (after write_response len full us e))
          e
          (write_all write_response rest (after write_response len full us e).transport)
      → Responds len
          ((respond (binary_executor write_response len) (encoder full) us >>= λ r.
              unless_failed (binary_executor write_response len) r next)
            e)
          e
          (write_all write_response (form full us ∷ rest) e.transport)
  unfolding write_all after
  list_round us e next rest fits room h =
      let (e', run, same_library, same_transport, room') =
        list_rest (write_response (form full us) e.transport).0 (after write_response len full us e)
          next rest (after-HasBuffer write_response len full us e fits room) h in
      (
        e',
        bind_done (respond (binary_executor write_response len) (encoder full) us) e _
              (respond_lem write_response len full us e fits room)
            ∙ run,
        same_library,
        same_transport,
        room',
      )

  loop_end :
      (fuel : ℕ) (ctx : IterCtx) (e : Exec Subsys Heap Transport) {ctx' : IterCtx}
      → iter_next ctx e.library.settings ≡ (none, ctx')
      → list_loop (binary_executor write_response len) (encoder full) (suc fuel) ctx e
        ≡ done (ok tt, e)
  unfolding list_loop
  loop_end fuel ctx e h = rw (h, list_loop)

  loop_round :
      (fuel p : ℕ) (ctx ctx' : IterCtx) (e : Exec Subsys Heap Transport) {us : UserSetting}
      → iter_next ctx e.library.settings ≡ (some p, ctx')
      → get_elem? e.library.settings p ≡ some us
      → list_loop (binary_executor write_response len) (encoder full) (suc fuel) ctx e
        ≡ (respond (binary_executor write_response len) (encoder full) us >>= λ r.
              unless_failed
                (binary_executor write_response len)
                r
                (list_loop (binary_executor write_response len) (encoder full) fuel ctx'))
            e
  unfolding list_loop
  loop_round fuel p ctx ctx' e h at =
      rw (h, list_loop) (rw h (bind_done (with_library (deref p)) e _ (with_library-deref p e at)))

  list_from :
      (rest : List UserSetting) (p : ℕ) (e : Exec Subsys Heap Transport)
      → drop p e.library.settings ≡ rest
      → All (Fits len full) rest
      → HasBuffer len e
      → Responds len
          (list_loop
            (binary_executor write_response len)
            (encoder full)
            (suc (length rest))
            (before p)
            e)
          e
          (write_all write_response (map (form full) rest) e.transport)
  unfolding write_all after
  list_from [] p e h all room =
      (e, loop_end 0 (before p) e (iter_next_done p e.library.settings h), refl, refl, room)
  list_from (us ∷ rest) p e h all room =
      let (e', run, same_library, same_transport, room') =
        list_round us e
          (list_loop (binary_executor write_response len) (encoder full) (suc (length rest))
            (before (suc p)))
          (map (form full) rest) all.0 room
          (list_from rest (suc p) (after write_response len full us e)
            (drop_cons p e.library.settings h).1 all.1
            (after-HasBuffer write_response len full us e all.0 room)) in
      (
        e',
        loop_round (suc (length rest)) p (before p) (before (suc p)) e
              (iter_next-before p e.library.settings h) (drop_cons p e.library.settings h).0
            ∙ run,
        same_library,
        same_transport,
        room',
      )

  -- LIST and LIST FULL with the binary encoding: where every setting is sound and its encoding fits
  -- into the response buffer, the encodings of all settings are written as responses, in the order
  -- of the list, up to the first that the transport refuses, which ends it with -EIO. It returns 0
  -- if all were written, and leaves the settings alone.
  pub list-write_all :
      (e : Exec Subsys Heap Transport)
      → All (Fits len full) e.library.settings
      → HasBuffer len e
      → Responds len
          (prv_exec_list_common (binary_executor write_response len) (encoder full) e)
          e
          (write_all write_response (map (form full) e.library.settings) e.transport)
  unfolding prv_exec_list_common
  list-write_all e all room = list_from e.library.settings 0 e refl all room
