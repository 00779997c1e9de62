-- ===== src/Protocol/Executor/Requests.antt =====
-- What library/protocol/executor/user_settings_protocol_executor.c does for each request of the
-- binary protocol.
use irnas_usersettings_lib.Base.{
  ℕ, suc, ◌+◌, ◌*◌, ◌/◌, ◌%◌, ◌≡◌, refl, ap, ◌∙◌, true, false, List, [], ◌∷◌, ◌++◌, arith, length,
  take-append, drop, drop_cons, get_elem?, Bytes, err, ok, Status, Outcome, done, fault, M, ◌>>=◌,
  pure, bind_done, bind_cong, Result,
}
use irnas_usersettings_lib.Platform.{Platform}
use irnas_usersettings_lib.Settings.Handlers.{overwrite}
use irnas_usersettings_lib.Protocol.Command.{zero_command, command_of}
use irnas_usersettings_lib.Protocol.Binary.Requests.{
  Request, plain, restore, one, set, some_ids, ids_bytes, request_bytes, decoded, IsEncodable,
  decode-request,
}
use irnas_usersettings_lib.Protocol.Executor.{
  Exec, UspExecutor, EncodeFn, binary_executor, unless_failed, prv_exec_get_common,
  prv_exec_list_common, prv_exec_set, prv_exec_set_default, prv_exec_restore, list_some_loop,
  read_id, execute, parse_and_execute,
}
use irnas_usersettings_lib.Protocol.Executor.Responses.{encoder}

module _ {Subsys Heap Transport : Type 0} (x : UspExecutor Transport) where
  -- GET for one ID after the other, up to the first that fails.
  abbrev pub get_each : EncodeFn → List ℕ → M (Exec Subsys Heap Transport) Status
  get_each encode [] = pure (ok tt)
  get_each encode (id ∷ ids) =
      prv_exec_get_common x encode id >>= λ r. unless_failed x r (get_each encode ids)

module _ {Subsys Heap Transport : Type 0} (z : Platform Subsys Heap)
    (x : UspExecutor Transport) where
  -- What is done for a request.
  abbrev pub serve : Request → M (Exec Subsys Heap Transport) Status
  serve (plain full) = prv_exec_list_common x (encoder full)
  serve restore = prv_exec_restore z
  serve (one full id) = prv_exec_get_common x (encoder full) id
  serve (set true id bs) = prv_exec_set_default z id bs
  serve (set false id bs) = prv_exec_set z id bs
  serve (some_ids full ids) = get_each x (encoder full) ids

module _ {Subsys Heap Transport : Type 0} (x : UspExecutor Transport) where
  read_id_lem :
      (i id : ℕ) (value rest : Bytes) (e : Exec Subsys Heap Transport)
      → drop (2 * i) value ≡ id % 256 ∷ id / 256 ∷ rest
      → (read_id x value i e ≡ done (id, e)) × (drop (2 * suc i) value ≡ rest)
  read_id_lem i id value rest e h =
      let (lo, h') = drop_cons (2 * i) value h in
      let (hi, h'') = drop_cons (suc (2 * i)) value h' in
      let past : 2 * suc i ≡ suc (suc (2 * i)) = omega arith in
      let next : 2 * i + 1 ≡ suc (2 * i) = omega arith in
      (ground (arith, lo, hi, ap (get_elem? value) next), ap (λ k. drop k value) past ∙ h'')

  unless_cong :
      (r : Status) (e : Exec Subsys Heap Transport) (m n : M (Exec Subsys Heap Transport) Status)
      → m e ≡ n e
      → unless_failed x r m e ≡ unless_failed x r n e
  unless_cong (ok t) e m n h = h
  unless_cong (err error) e m n h = refl

  list_some-get_each :
      (encode : EncodeFn) (ids : List ℕ) (i : ℕ) (value tail : Bytes)
      (e : Exec Subsys Heap Transport)
      → drop (2 * i) value ≡ ids_bytes ids ++ tail
      → list_some_loop x encode (length ids) i value e ≡ get_each x encode ids e
  unfolding list_some_loop
  list_some-get_each encode [] i value tail e h = refl
  list_some-get_each encode (id ∷ ids) i value tail e h =
      let (here, next) = read_id_lem i id value (ids_bytes ids ++ tail) e h in
      bind_done (read_id x value i) e _ here
      ∙ bind_cong (prv_exec_get_common x encode id) e _ _ λ r e' run.
        unless_cong r e' (list_some_loop x encode (length ids) (suc i) value)
          (get_each x encode ids) (list_some-get_each encode ids (suc i) value tail e' next)

module _ {Subsys Heap Transport : Type 0} (z : Platform Subsys Heap)
    (write_response : Bytes → Transport → Result ℕ × Transport) (len : ℕ) where
  execute-decoded :
      (r : Request) (e : Exec Subsys Heap Transport)
      → execute z
          (binary_executor write_response len)
          (command_of (decoded r).command_type)
          (decoded r)
          e
        ≡ serve z (binary_executor write_response len) r e
  unfolding execute
  execute-decoded (plain true) e = refl
  execute-decoded (plain false) e = refl
  execute-decoded restore e = refl
  execute-decoded (one true id) e = refl
  execute-decoded (one false id) e = refl
  execute-decoded (set true id bs) e = ap (λ bs. prv_exec_set_default z id bs e) (take-append bs _)
  execute-decoded (set false id bs) e = ap (λ bs. prv_exec_set z id bs e) (take-append bs _)
  execute-decoded (some_ids true ids) e =
      let half : 2 * length ids / 2 ≡ length ids = omega arith in
      let x = binary_executor write_response len in
      let value = overwrite (ids_bytes ids) zero_command.value in
      ap (λ n. list_some_loop x (encoder true) n 0 value e) half
      ∙ list_some-get_each x (encoder true) ids 0 value
          (drop (length (ids_bytes ids)) zero_command.value) e refl
  execute-decoded (some_ids false ids) e =
      let half : 2 * length ids / 2 ≡ length ids = omega arith in
      let x = binary_executor write_response len in
      let value = overwrite (ids_bytes ids) zero_command.value in
      ap (λ n. list_some_loop x (encoder false) n 0 value e) half
      ∙ list_some-get_each x (encoder false) ids 0 value
          (drop (length (ids_bytes ids)) zero_command.value) e refl

  -- Every request with a 16-bit ID, 1 to 255 bytes of data or at most 127 IDs (IsEncodable) is
  -- decoded and carried out as asked: the lists, a GET, a SET with exactly the bytes sent, a restore,
  -- or a GET of each ID in turn, up to the first that fails.
  pub parse_and_execute-serve :
      (r : Request) (e : Exec Subsys Heap Transport)
      → IsEncodable r
      → parse_and_execute z
          (binary_executor write_response len)
          (request_bytes r)
          (length (request_bytes r))
          e
        ≡ serve z (binary_executor write_response len) r e
  unfolding parse_and_execute
  parse_and_execute-serve r e h =
      ap
        (λ o. elim o as (λ _. Outcome (Status × Exec Subsys Heap Transport)) [
          | fault f ↦ fault f
          | done (err error, cmd) ↦ done (err error, e)
          | done (ok n, cmd) ↦
              execute z (binary_executor write_response len) (command_of cmd.command_type) cmd e
        ])
        (decode-request r zero_command h)
      ∙ execute-decoded r e
