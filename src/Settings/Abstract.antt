-- ===== src/Settings/Abstract.antt =====
-- The abstract view of library/user_settings/user_settings.c: a table of entries by key, each with
-- at most one value and one default. Blocks, lengths and flags of use are forgotten.
pub mod Entries
pub mod Stored
pub mod Steps
pub mod OtherSteps
pub mod FromStorage
pub mod Refinement
pub mod Reload
use irnas_usersettings_lib.Base.{
  ℕ, Bool, true, false, not, ◌&&◌, Option, none, some, List, [], ◌∷◌, length, take, modify,
  find_index, Bytes, bytes_eq, ltb, if◌then◌else◌,
}
use irnas_usersettings_lib.Setting.{UserSetting, ValidateCb}
use irnas_usersettings_lib.Settings.Calls.{Call, sets, sets_default, marks, clears, with_key}

-- `accepts` is the validation callback.
pub record Entry : Type 0 where
  pub key : Bytes
  pub max_size : ℕ
  pub accepts : Bytes → Bool
  pub value : Option Bytes
  pub default : Option Bytes
  pub has_changed : Bool

abbrev accepted_by : Option ValidateCb → ℕ → Bytes → Bytes → Bool
accepted_by none id key bs = true
accepted_by (some validate) id key bs = validate id key bs

abbrev in_use : Bool → ℕ → Bytes → Option Bytes
in_use false len block = none
in_use true len block = some (take len block)

-- The entry that a setting stands for.
unfoldable pub entry : UserSetting → Entry
entry us = record {
  key = us.key;
  max_size = us.max_size;
  accepts = accepted_by us.validate_cb us.id us.key;
  value = in_use us.is_set us.value_len us.value;
  default = in_use us.default_is_set us.default_value_len us.default_value;
  has_changed = us.has_changed_recently;
}

abbrev pub is_value : Option Bytes → Bytes → Bool
is_value none bs = false
is_value (some v) bs = bytes_eq v bs

abbrev pub is_some : Option Bytes → Bool
is_some none = false
is_some (some v) = true

-- A new value that fits and is accepted is taken, and marks the entry as changed.
abbrev pub put_value : Bytes → Entry → Entry
put_value bs e =
    if ltb e.max_size (length bs)
    then e
    else if is_value e.value bs
    then e
    else if not (e.accepts bs)
    then e
    else record e { value = some bs; has_changed = true }

-- A default is final, unless overwriting is on.
abbrev pub put_default : Bool → Bytes → Entry → Entry
put_default overwrite bs e =
    if is_value e.default bs
    then e
    else if not overwrite && is_some e.default
    then e
    else if ltb e.max_size (length bs)
    then e
    else if not (e.accepts bs)
    then e
    else record e { default = some bs }

abbrev pub put_flag : Bool → Entry → Entry
put_flag flag e = record e { has_changed = flag }

-- A request by key; the data is the byte `b` and those that follow.
pub data Request : Type 0 where
  request_set request_set_default : Bytes → ℕ → Bytes → Request
  request_mark request_clear : Bytes → Request

-- The call that makes the request.
abbrev pub as_call : Request → Call
as_call (request_set key b bs) = sets (with_key key) (b ∷ bs)
as_call (request_set_default key b bs) = sets_default (with_key key) (b ∷ bs)
as_call (request_mark key) = marks (with_key key)
as_call (request_clear key) = clears (with_key key)

abbrev pub requested_key : Request → Bytes
requested_key (request_set key b bs) = key
requested_key (request_set_default key b bs) = key
requested_key (request_mark key) = key
requested_key (request_clear key) = key

-- What a request does to the entry of its key.
abbrev pub requested : Bool → Request → Entry → Entry
requested overwrite (request_set key b bs) = put_value (b ∷ bs)
requested overwrite (request_set_default key b bs) = put_default overwrite (b ∷ bs)
requested overwrite (request_mark key) = put_flag true
requested overwrite (request_clear key) = put_flag false

-- The table after a request; `none` where there is no entry of its key.
abbrev pub serve_one : Bool → Request → List Entry → Option (List Entry)
serve_one overwrite r es = elim (find_index (λ e. bytes_eq (requested_key r) e.key) es) [
  | none ↦ none
  | some p ↦ some (modify es p (requested overwrite r))
]

abbrev pub serve_rest :
    (List Entry → Option (List Entry)) → Option (List Entry) → Option (List Entry)
serve_rest next none = none
serve_rest next (some es) = next es

abbrev pub serve_all : Bool → List Request → List Entry → Option (List Entry)
serve_all overwrite [] es = some es
serve_all overwrite (r ∷ rs) es = serve_rest (serve_all overwrite rs) (serve_one overwrite r es)
