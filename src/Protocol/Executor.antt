-- ===== src/Protocol/Executor.antt =====
-- library/protocol/executor: decoding a command, executing it, and writing the responses.
-- The decoder, the encoders and the transport are the function pointers of struct usp_executor.
pub mod Responses
pub mod Listing
pub mod Requests
use irnas_usersettings_lib.Base.{
  ℕ, zero, suc, ◌+◌, ◌*◌, ◌/◌, Bool, true, false, not, Option, none, some, [], ◌++◌, length, take,
  get_elem?, M, Bytes, ltb, if◌then◌else◌, Errno, eio, enoent, enomem, enoexec, Result, ok, err,
  Status, Outcome, done, fault, assertion, out_of_bounds, no_fuel, ◌>>=◌, ◌>>◌, pure, stop, gets,
  assert,
}
use irnas_usersettings_lib.Setting.{UserSetting}
use irnas_usersettings_lib.Platform.{Platform}
use irnas_usersettings_lib.State.{State, deref}
use irnas_usersettings_lib.SettingsList.{get_by_id, IterCtx, iter_start, iter_next}
use irnas_usersettings_lib.Settings.Change.{set_with_id, set_default_with_id}
use irnas_usersettings_lib.Settings.Restore.{restore_defaults}
use irnas_usersettings_lib.Settings.Query.{exists_with_id}
use irnas_usersettings_lib.Protocol.Command.{
  Command, CommandType, uspc_get, uspc_get_full, uspc_list, uspc_list_full, uspc_set,
  uspc_set_default, uspc_restore, uspc_list_some, uspc_list_some_full, command_of, zero_command,
}
use irnas_usersettings_lib.Protocol.Binary.Encode.{Writer, encode, encode_full}
use irnas_usersettings_lib.Protocol.Binary.Decode.{decode_command}

-- uspe_encode_t, which writes into a buffer from its start
abbrev pub EncodeFn : Type 0
EncodeFn = UserSetting → ℕ → M Writer (Result ℕ)

-- struct usp_executor, less the response buffer. A transport has a state of type `Transport`; the
-- int that write_response returns is `ok n` if it is n, zero or more, and an error if it is less.
pub record UspExecutor (Transport : Type 0) : Type 0 where
  pub decode_command : Bytes → ℕ → M Command (Result ℕ)
  pub encode : EncodeFn
  pub encode_full : EncodeFn
  pub write_response : Bytes → Transport → Result ℕ × Transport
  pub resp_buffer_len : ℕ

-- What an execution changes.
pub record Exec (Subsys Heap Transport : Type 0) : Type 0 where
  pub library : State Subsys Heap
  pub resp_buffer : Bytes
  pub transport : Transport

abbrev pub is_enomem : Errno → Bool
is_enomem enomem = true
is_enomem _ = false

abbrev pub eio_if_error : {A : Type 0} → Result A → Status
eio_if_error (ok t) = ok tt
eio_if_error (err e) = err eio

abbrev pub enoexec_if_error : Status → Status
enoexec_if_error (ok t) = ok tt
enoexec_if_error (err e) = err enoexec

-- USP_BINARY_EXECUTOR_DECLARE
abbrev pub binary_executor :
    {Transport : Type 0} → (Bytes → Transport → Result ℕ × Transport) → ℕ → UspExecutor Transport
binary_executor write_response resp_buffer_len = record {
  decode_command = decode_command;
  encode = encode;
  encode_full = encode_full;
  write_response = write_response;
  resp_buffer_len = resp_buffer_len;
}

module _ {Subsys Heap Transport : Type 0} where
  -- A call of the settings library.
  abbrev pub with_library :
      {A : Type 0} → M (State Subsys Heap) A → M (Exec Subsys Heap Transport) A
  with_library m e = elim (m e.library) [
    | done (a, s) ↦ done (a, record e { library = s })
    | fault f ↦ fault f
  ]

module _ {Subsys Heap Transport : Type 0} (x : UspExecutor Transport) where
  -- encode(us, resp_buffer, resp_buffer_len)
  abbrev pub encode_response : EncodeFn → UserSetting → M (Exec Subsys Heap Transport) (Result ℕ)
  encode_response encode us e =
      elim (encode us x.resp_buffer_len (record { written = []; space = e.resp_buffer })) [
        | done (r, w) ↦ done (r, record e { resp_buffer = w.written ++ w.space })
        | fault f ↦ fault f
      ]

  -- write_response(resp_buffer, n, user_data)
  abbrev pub send : ℕ → M (Exec Subsys Heap Transport) (Result ℕ)
  send n e =
      if ltb (length e.resp_buffer) n
      then fault out_of_bounds
      else let (r, transport) = x.write_response (take n e.resp_buffer) e.transport in
        done (r, record e { transport = transport })

  -- Encoding a setting and writing it, in prv_exec_get_common and prv_exec_list_common alike.
  abbrev pub written : Result ℕ → M (Exec Subsys Heap Transport) Status
  written (ok n) = do r ← send n; pure (eio_if_error r)
  written (err e) = do assert (is_enomem e); pure (err e)

  unfoldable pub respond : EncodeFn → UserSetting → M (Exec Subsys Heap Transport) Status
  respond encode us = do r ← encode_response encode us; written r

  abbrev pub get_found : EncodeFn → Option ℕ → M (Exec Subsys Heap Transport) Status
  get_found encode none = pure (err enoent)
  get_found encode (some p) = do us ← with_library (deref p); respond encode us

  unfoldable pub prv_exec_get_common : EncodeFn → ℕ → M (Exec Subsys Heap Transport) Status
  unfolding respond
  prv_exec_get_common encode id = do
    us ← gets (λ e. get_by_id id e.library.settings)
    get_found encode us

  abbrev pub unless_failed :
      Status → M (Exec Subsys Heap Transport) Status → M (Exec Subsys Heap Transport) Status
  unless_failed (err e) rest = pure (err e)
  unless_failed (ok t) rest = rest

  -- The `while` of prv_exec_list_common.
  unfoldable pub list_loop : EncodeFn → ℕ → IterCtx → M (Exec Subsys Heap Transport) Status
  unfolding respond
  list_loop encode zero ctx e = fault no_fuel
  list_loop encode (suc fuel) ctx e =
      let (us, ctx') = iter_next ctx e.library.settings in
      elim us [
        | none ↦ done (ok tt, e)
        | some p ↦
            (with_library (deref p) >>= λ us.
            respond encode us >>= λ r. unless_failed r (list_loop encode fuel ctx'))
              e
      ]

  -- A round for each setting, and one for the end.
  unfoldable pub prv_exec_list_common : EncodeFn → M (Exec Subsys Heap Transport) Status
  unfolding list_loop
  prv_exec_list_common encode e = list_loop encode (suc (length e.library.settings)) iter_start e

  -- ids[i], two bytes, little endian
  abbrev pub read_id : Bytes → ℕ → M (Exec Subsys Heap Transport) ℕ
  read_id ids i e = elim (get_elem? ids (2 * i)) [
    | none ↦ fault out_of_bounds
    | some lo ↦ elim (get_elem? ids (2 * i + 1)) [
      | none ↦ fault out_of_bounds
      | some hi ↦ done (lo + 256 * hi, e)
    ]
  ]

  -- The `for` of prv_exec_list_some and prv_exec_list_some_full, `n` rounds from `i` on.
  unfoldable pub list_some_loop : EncodeFn → ℕ → ℕ → Bytes → M (Exec Subsys Heap Transport) Status
  list_some_loop encode zero i ids = pure (ok tt)
  list_some_loop encode (suc n) i ids = do
    id ← read_id ids i
    r ← prv_exec_get_common encode id
    unless_failed r (list_some_loop encode n (suc i) ids)

module _ {Subsys Heap Transport : Type 0} (x : UspExecutor Transport) where
  abbrev pub prv_exec_get : ℕ → M (Exec Subsys Heap Transport) Status
  prv_exec_get id = prv_exec_get_common x x.encode id

  abbrev pub prv_exec_get_full : ℕ → M (Exec Subsys Heap Transport) Status
  prv_exec_get_full id = prv_exec_get_common x x.encode_full id

  abbrev pub prv_exec_list : M (Exec Subsys Heap Transport) Status
  prv_exec_list = prv_exec_list_common x x.encode

  abbrev pub prv_exec_list_full : M (Exec Subsys Heap Transport) Status
  prv_exec_list_full = prv_exec_list_common x x.encode_full

  abbrev pub prv_exec_list_some : ℕ → Bytes → M (Exec Subsys Heap Transport) Status
  prv_exec_list_some num_ids ids = list_some_loop x x.encode num_ids 0 ids

  abbrev pub prv_exec_list_some_full : ℕ → Bytes → M (Exec Subsys Heap Transport) Status
  prv_exec_list_some_full num_ids ids = list_some_loop x x.encode_full num_ids 0 ids

module _ {Subsys Heap Transport : Type 0} (z : Platform Subsys Heap) where
  unfoldable pub prv_exec_set : ℕ → Bytes → M (Exec Subsys Heap Transport) Status
  prv_exec_set id bs = do
    exists ← with_library (exists_with_id id)
    if not exists
        then pure (err enoent)
        else do r ← with_library (set_with_id z id bs); pure (enoexec_if_error r)

  unfoldable pub prv_exec_set_default : ℕ → Bytes → M (Exec Subsys Heap Transport) Status
  prv_exec_set_default id bs = do
    exists ← with_library (exists_with_id id)
    if not exists
        then pure (err enoent)
        else do r ← with_library (set_default_with_id z id bs); pure (enoexec_if_error r)

  unfoldable pub prv_exec_restore : M (Exec Subsys Heap Transport) Status
  prv_exec_restore = do with_library (restore_defaults z); pure (ok tt)

module _ {Subsys Heap Transport : Type 0} (z : Platform Subsys Heap)
    (x : UspExecutor Transport) where
  -- The `switch` over the type of the command.
  unfoldable pub execute : Option CommandType → Command → M (Exec Subsys Heap Transport) Status
  unfolding prv_exec_get_common prv_exec_list_common prv_exec_set prv_exec_set_default
      prv_exec_restore list_some_loop
  execute none cmd = stop assertion
  execute (some uspc_get) cmd = prv_exec_get x cmd.id
  execute (some uspc_get_full) cmd = prv_exec_get_full x cmd.id
  execute (some uspc_list) cmd = prv_exec_list x
  execute (some uspc_list_full) cmd = prv_exec_list_full x
  execute (some uspc_set) cmd = prv_exec_set z cmd.id (take cmd.value_len cmd.value)
  execute (some uspc_set_default) cmd = prv_exec_set_default z cmd.id (take cmd.value_len cmd.value)
  execute (some uspc_restore) cmd = prv_exec_restore z
  execute (some uspc_list_some) cmd = prv_exec_list_some x (cmd.value_len / 2) cmd.value
  execute (some uspc_list_some_full) cmd = prv_exec_list_some_full x (cmd.value_len / 2) cmd.value

  unfoldable pub parse_and_execute : Bytes → ℕ → M (Exec Subsys Heap Transport) Status
  unfolding execute
  parse_and_execute buffer len e = elim (x.decode_command buffer len zero_command) [
    | fault f ↦ fault f
    | done (err error, cmd) ↦ done (err error, e)
    | done (ok n, cmd) ↦ execute (command_of cmd.command_type) cmd e
  ]
