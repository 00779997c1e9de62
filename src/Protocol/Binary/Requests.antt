-- ===== src/Protocol/Binary/Requests.antt =====
-- The requests of library/protocol/binary/README.md, and what
-- user_settings_protocol_binary_decode_command makes of them.
use irnas_usersettings_lib.Base.{
  ◌>>◌, pure, update, not, ℕ, ◌+◌, ◌-◌, ◌*◌, ◌/◌, ◌%◌, ◌^◌, ◌<◌, ◌≡◌, refl, ap, ◌∙◌, Bool, true,
  false, some, List, [], ◌∷◌, arith, length, take_all, Bytes, ◌==◌, if◌then◌else◌, ok, err, eproto,
  done,
}
use irnas_usersettings_lib.Settings.Handlers.{overwrite}
use irnas_usersettings_lib.Protocol.Command.{
  Command, CommandType, uspc_get, uspc_get_full, uspc_list, uspc_list_full, uspc_set,
  uspc_set_default, uspc_restore, uspc_list_some, uspc_list_some_full, command_code, command_of,
  zero_command,
}
use irnas_usersettings_lib.Protocol.Binary.Decode.{
  decode_data, decode_ids, decode_case, decode_command, copy_value, size_mod,
}

-- A 16-bit number, little endian.
abbrev pub u16_bytes : ℕ → Bytes
u16_bytes n = n % 256 ∷ n / 256 ∷ []

abbrev pub ids_bytes : List ℕ → Bytes
ids_bytes [] = []
ids_bytes (id ∷ ids) = id % 256 ∷ id / 256 ∷ ids_bytes ids

-- What a client asks for.
pub data Request : Type 0 where
  plain : Bool → Request
  restore : Request
  one : Bool → ℕ → Request
  set : Bool → ℕ → Bytes → Request
  some_ids : Bool → List ℕ → Request

-- `true` asks for the full form of the answer, or sets the default.
abbrev pub request_type : Request → CommandType
request_type (plain true) = uspc_list_full
request_type (plain false) = uspc_list
request_type restore = uspc_restore
request_type (one true id) = uspc_get_full
request_type (one false id) = uspc_get
request_type (set true id bs) = uspc_set_default
request_type (set false id bs) = uspc_set
request_type (some_ids true ids) = uspc_list_some_full
request_type (some_ids false ids) = uspc_list_some

abbrev pub fields : Request → Bytes
fields (plain full) = []
fields restore = []
fields (one full id) = u16_bytes id
fields (set default id bs) = id % 256 ∷ id / 256 ∷ length bs ∷ bs
fields (some_ids full ids) = length ids ∷ ids_bytes ids

abbrev pub request_bytes : Request → Bytes
request_bytes r = command_code (request_type r) ∷ fields r

abbrev pub decoded : Request → Command
decoded (plain full) = record zero_command {
  command_type = command_code (request_type (plain full));
}
decoded restore = record zero_command { command_type = 7 }
decoded (one full id) = record zero_command {
  command_type = command_code (request_type (one full id));
  id = id;
}
decoded (set default id bs) = record {
  command_type = command_code (request_type (set default id bs));
  id = id;
  value_len = length bs;
  value = overwrite bs zero_command.value;
}
decoded (some_ids full ids) = record {
  command_type = command_code (request_type (some_ids full ids));
  id = 0;
  value_len = 2 * length ids;
  value = overwrite (ids_bytes ids) zero_command.value;
}

-- 16-bit IDs, 1 to 255 bytes of data, and at most 127 IDs.
abbrev pub IsEncodable : Request → Type 0
IsEncodable (one full id) = id < 2 ^ 16
IsEncodable (set default id bs) = (id < 2 ^ 16) × (0 < length bs) × (length bs < 256)
IsEncodable (some_ids full ids) = length ids < 128
IsEncodable _ = Unit {0}

pub length-ids_bytes : (ids : List ℕ) → length (ids_bytes ids) ≡ 2 * length ids
length-ids_bytes [] = refl
length-ids_bytes (id ∷ ids) = omega (arith, length-ids_bytes ids)

decode_set :
    (b id : ℕ) (bs : Bytes) (c : Command)
    → id < 2 ^ 16
    → 0 < length bs
    → length bs < 256
    → decode_data (b ∷ id % 256 ∷ id / 256 ∷ length bs ∷ bs) (4 + length bs) c
      ≡ done (
        ok (4 + length bs),
        record c { id = id; value_len = length bs; value = overwrite bs c.value },
      )
unfolding decode_data
decode_set b id bs c id_fits some_data fits = ground (arith, take_all (length bs) bs (omega arith))

decode_some :
    (b : ℕ) (ids : List ℕ) (c : Command)
    → length ids < 128
    → decode_ids (b ∷ length ids ∷ ids_bytes ids) (2 + length (ids_bytes ids)) c
      ≡ done (
        ok (2 + length (ids_bytes ids)),
        record c { value_len = 2 * length ids; value = overwrite (ids_bytes ids) c.value },
      )
unfolding decode_ids
decode_some b ids c fits =
    let len : (2 + length (ids_bytes ids) + size_mod - 2) % size_mod ≡ 2 * length ids =
      omega (arith, length-ids_bytes ids) in
    ap
      (λ n.
        (if not (n / 2 == length ids) then pure (err eproto) else do
          update (λ c. record c { value_len = length ids * 2 % 256 })
          copy_value (b ∷ length ids ∷ ids_bytes ids) 2 n
          pure (ok (2 + length ids * 2 % 256)))
          c)
      len
    ∙ ground (arith, length-ids_bytes ids, take_all (2 * length ids) (ids_bytes ids))

command_of-command_code : (t : CommandType) → command_of (command_code t) ≡ some t
command_of-command_code uspc_get = refl
command_of-command_code uspc_get_full = refl
command_of-command_code uspc_list = refl
command_of-command_code uspc_list_full = refl
command_of-command_code uspc_set = refl
command_of-command_code uspc_set_default = refl
command_of-command_code uspc_restore = refl
command_of-command_code uspc_list_some = refl
command_of-command_code uspc_list_some_full = refl

-- Past the type, the decoder runs the case for it.
pub decode-type :
    (t : CommandType) (n : ℕ) (bs : Bytes) (c : Command)
    → 0 < n
    → decode_command (command_code t ∷ bs) n c
      ≡ decode_case
          (some t)
          (command_code t ∷ bs)
          n
          (record zero_command { command_type = command_code t })
unfolding decode_command
decode-type t n bs c h = ground (arith, command_of-command_code t)

decode_some_lem :
    (full : Bool) (ids : List ℕ) (c : Command)
    → length ids < 128
    → decode_command (request_bytes (some_ids full ids)) (2 + length (ids_bytes ids)) c
      ≡ done (ok (2 + length (ids_bytes ids)), decoded (some_ids full ids))
unfolding decode_case
decode_some_lem true ids c h =
    decode-type uspc_list_some_full (2 + length (ids_bytes ids)) (fields (some_ids true ids)) c
      (omega arith)
    ∙ decode_some 9 ids (record zero_command { command_type = 9 }) h
decode_some_lem false ids c h =
    decode-type uspc_list_some (2 + length (ids_bytes ids)) (fields (some_ids false ids)) c
      (omega arith)
    ∙ decode_some 8 ids (record zero_command { command_type = 8 }) h

decode_set_lem :
    (default : Bool) (id : ℕ) (bs : Bytes) (c : Command)
    → (id < 2 ^ 16) × (0 < length bs) × (length bs < 256)
    → decode_command (request_bytes (set default id bs)) (4 + length bs) c
      ≡ done (ok (4 + length bs), decoded (set default id bs))
unfolding decode_case
decode_set_lem true id bs c (id_fits, some_data, fits) =
    decode-type uspc_set_default (4 + length bs) (fields (set true id bs)) c (omega arith)
    ∙ decode_set 6 id bs (record zero_command { command_type = 6 }) id_fits some_data fits
decode_set_lem false id bs c (id_fits, some_data, fits) =
    decode-type uspc_set (4 + length bs) (fields (set false id bs)) c (omega arith)
    ∙ decode_set 5 id bs (record zero_command { command_type = 5 }) id_fits some_data fits

-- Every request with a 16-bit ID, 1 to 255 bytes of data or at most 127 IDs (IsEncodable) is
-- decoded to what was asked, and all of its bytes are used.
pub decode-request :
    (r : Request) (c : Command)
    → IsEncodable r
    → decode_command (request_bytes r) (length (request_bytes r)) c
      ≡ done (ok (length (request_bytes r)), decoded r)
unfolding decode_command decode_case
decode-request (plain true) c h = refl
decode-request (plain false) c h = refl
decode-request restore c h = refl
decode-request (one true id) c h = ground arith
decode-request (one false id) c h = ground arith
decode-request (set default id bs) c h =
    ap (λ n. decode_command (request_bytes (set default id bs)) n c) (omega arith)
    ∙ decode_set_lem default id bs c h
    ∙ ap (λ n. done (ok n, decoded (set default id bs))) (omega arith)
decode-request (some_ids full ids) c h =
    ap (λ n. decode_command (request_bytes (some_ids full ids)) n c) (omega arith)
    ∙ decode_some_lem full ids c h
    ∙ ap (λ n. done (ok n, decoded (some_ids full ids))) (omega arith)
