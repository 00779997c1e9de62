-- ===== src/Json.antt =====
-- library/user_settings/user_settings_json.c: settings as JSON, and JSON as settings.
pub mod Values
pub mod Plain
pub mod Export
pub mod Carried
pub mod Import
pub mod RoundTrip
pub mod Overrun
use irnas_usersettings_lib.Base.{
  ℕ, suc, ◌*◌, ◌/◌, Bool, true, false, not, Option, none, some, List, [], ◌∷◌, ◌++◌, length, take,
  M, Bytes, ltb, ◌==◌, if◌then◌else◌, Result, Status, ok, err, einval, enomem, out_of_bounds, done,
  fault, ◌>>=◌, ◌>>◌, pure, stop, gets, update,
}
use irnas_usersettings_lib.Setting.{
  UserSetting, UserSettingType, type_bool, type_u8, type_u16, type_u32, type_u64, type_i8, type_i16,
  type_i32, type_i64, type_str, type_bytes,
}
use irnas_usersettings_lib.Platform.{Platform}
use irnas_usersettings_lib.State.{State}
use irnas_usersettings_lib.Memory.{
  ℤ, pos, to_unsigned, as_signed, to_int, le_bytes, le_value, read_prefix, read_unsigned,
  read_signed, read_string,
}
use irnas_usersettings_lib.Hex.{hex_encode, hex_decode}
use irnas_usersettings_lib.Walk.{walk}
use irnas_usersettings_lib.Settings.Change.{set_with_key, set_changed_with_key}
use irnas_usersettings_lib.Settings.Query.{exists_with_key, get_type_with_key}

-- What the code reads of a cJSON item: its type, and valueint or valuestring, without the zero that
-- ends it.
pub data JsonValue : Type 0 where
  json_invalid json_true json_false : JsonValue
  json_number : ℤ → JsonValue
  json_string : Bytes → JsonValue
  json_other : JsonValue

abbrev pub is_invalid : JsonValue → Bool
is_invalid json_invalid = true
is_invalid _ = false

-- An item of an object; `string` is its name.
pub record JsonItem : Type 0 where
  pub string : Bytes
  pub value : JsonValue

-- What the code calls of cJSON. `Heap` is the state of its allocator, an object is the list of its
-- items; `none` and `false` are NULL.
pub record CJson (Heap : Type 0) : Type 0 where
  pub create_object : Heap → Bool × Heap
  pub create_true : Heap → Option JsonValue × Heap
  pub create_false : Heap → Option JsonValue × Heap
  pub create_number : ℤ → Heap → Option JsonValue × Heap
  pub create_string : Bytes → Heap → Option JsonValue × Heap
  pub add_item_to_object : List JsonItem → Bytes → JsonValue → Heap → List JsonItem × Heap

-- The allocator, and the object that is being built.
pub record Building (Heap : Type 0) : Type 0 where
  pub heap : Heap
  pub object : List JsonItem

module _ {Heap : Type 0} where
  -- A call of cJSON that allocates.
  abbrev pub creates : {A : Type 0} → (Heap → A × Heap) → M (Building Heap) A
  creates f b = let (a, heap) = f b.heap in done (a, record b { heap = heap })

module _ {Heap : Type 0} (c : CJson Heap) where
  abbrev create_bool : Bool → Heap → Option JsonValue × Heap
  create_bool true = c.create_true
  create_bool false = c.create_false

  abbrev pub number : M (Building Heap) ℤ → M (Building Heap) (Option JsonValue)
  number read = do v ← read; creates (c.create_number (to_int v))

  unfoldable pub json_of_type : UserSettingType → UserSetting → M (Building Heap) (Option JsonValue)
  json_of_type type_bool us = do
    bs ← read_prefix 1 us.value
    creates (create_bool (not (le_value bs == 0)))
  json_of_type type_u8 us = number (read_unsigned 1 us.value)
  json_of_type type_u16 us = number (read_unsigned 2 us.value)
  json_of_type type_u32 us = number (read_unsigned 4 us.value)
  json_of_type type_u64 us = number (read_unsigned 8 us.value)
  json_of_type type_i8 us = number (read_signed 1 us.value)
  json_of_type type_i16 us = number (read_signed 2 us.value)
  json_of_type type_i32 us = number (read_signed 4 us.value)
  json_of_type type_i64 us = number (read_signed 8 us.value)
  json_of_type type_str us = do s ← read_string us.value; creates (c.create_string s)
  json_of_type type_bytes us = do
    bs ← read_prefix us.value_len us.value
    creates (c.create_string (hex_encode bs))

  unfoldable pub prv_json_from_setting : UserSetting → M (Building Heap) (Option JsonValue)
  unfolding json_of_type
  prv_json_from_setting us = json_of_type us.setting_type us

  -- cJSON_AddItemToObject, unless there is no item
  abbrev pub add_item : Bytes → Option JsonValue → M (Building Heap) (Unit {0})
  add_item key none b = done (tt, b)
  add_item key (some v) b =
      let (object, heap) = c.add_item_to_object b.object key v b.heap in
      done (tt, record { heap = heap; object = object })

  -- The bodies of the two loops.
  unfoldable pub export_each : UserSetting → M (Building Heap) (Unit {0})
  unfolding prv_json_from_setting
  export_each us = do v ← prv_json_from_setting us; add_item us.key v

  unfoldable pub export_changed : UserSetting → M (Building Heap) (Unit {0})
  unfolding export_each
  export_changed us = if us.has_changed_recently then export_each us else pure tt

  -- The result is what `*settings_out` is given.
  unfoldable pub export_with :
      (UserSetting → M (Building Heap) (Unit {0}))
      → List UserSetting
      → M (Building Heap) (Result (List JsonItem))
  export_with body l = do
    created ← creates c.create_object
    if not created then pure (err enomem) else do
      update (λ b. record b { object = [] })
      walk body l
      object ← gets (λ b. b.object)
      pure (ok object)

  unfoldable pub get_all_json : List UserSetting → M (Building Heap) (Result (List JsonItem))
  unfolding export_with export_each
  get_all_json l = export_with export_each l

  unfoldable pub get_changed_json : List UserSetting → M (Building Heap) (Result (List JsonItem))
  unfolding export_with export_changed
  get_changed_json l = export_with export_changed l

module _ {Subsys Heap : Type 0} where
  -- The bytes that a value stands for; `none` is a value of the wrong type. The buffer for a
  -- hexadecimal string has 1024 bytes.
  unfoldable pub json_bytes : UserSettingType → JsonValue → M (State Subsys Heap) (Option Bytes)
  unfolding hex_decode
  json_bytes type_bool json_true = pure (some (1 ∷ []))
  json_bytes type_bool json_false = pure (some (0 ∷ []))
  json_bytes type_u8 (json_number n) = pure (some (le_bytes 1 (to_unsigned 8 n)))
  json_bytes type_u16 (json_number n) = pure (some (le_bytes 2 (to_unsigned 16 n)))
  json_bytes type_u32 (json_number n) = pure (some (le_bytes 4 (to_unsigned 32 n)))
  json_bytes type_u64 (json_number n) = pure (some (le_bytes 8 (to_unsigned 64 n)))
  json_bytes type_i8 (json_number n) = pure (some (le_bytes 1 (to_unsigned 8 n)))
  json_bytes type_i16 (json_number n) = pure (some (le_bytes 2 (to_unsigned 16 n)))
  json_bytes type_i32 (json_number n) = pure (some (le_bytes 4 (to_unsigned 32 n)))
  json_bytes type_i64 (json_number n) = pure (some (le_bytes 8 (to_unsigned 64 n)))
  json_bytes type_str (json_string s) = pure (some (s ++ 0 ∷ []))
  json_bytes type_bytes (json_string s) =
      if ltb 1024 (length s / 2) then stop out_of_bounds else pure (some (hex_decode s))
  json_bytes _ _ = pure none

module _ {Subsys Heap : Type 0} (z : Platform Subsys Heap) where
  -- What follows user_settings_set_with_key.
  abbrev pub mark : Bool → Bytes → Status → M (State Subsys Heap) Status
  mark always key (err e) = pure (err e)
  mark true key (ok t) = do set_changed_with_key z key; pure (ok tt)
  mark false key (ok t) = pure (ok tt)

  abbrev pub set_bytes : Bool → Bytes → Option Bytes → M (State Subsys Heap) Status
  set_bytes always key none = pure (err einval)
  set_bytes always key (some bs) = do e ← set_with_key z key bs; mark always key e

  unfoldable pub prv_set_from_json :
      UserSettingType → JsonItem → Bool → M (State Subsys Heap) Status
  unfolding json_bytes
  prv_set_from_json type item always = do
    bs ← json_bytes type item.value
    set_bytes always item.string bs

  -- -EINVAL is reported in the log only; any other error ends the loop.
  abbrev pub unless_serious : Status → M (State Subsys Heap) Status → M (State Subsys Heap) Status
  unless_serious (ok t) rest = rest
  unless_serious (err einval) rest = rest
  unless_serious (err e) rest = pure (err e)

  -- One round of cJSON_ArrayForEach, and the rest of them.
  unfoldable pub set_item :
      JsonItem → Bool → M (State Subsys Heap) Status → M (State Subsys Heap) Status
  unfolding prv_set_from_json
  set_item item always rest = if is_invalid item.value then rest else do
    known ← exists_with_key item.string
    if not known then rest else do
      type ← get_type_with_key item.string
      e ← prv_set_from_json type item always
      unless_serious e rest

  unfoldable pub set_items : List JsonItem → Bool → M (State Subsys Heap) Status
  unfolding set_item
  set_items [] always = pure (ok tt)
  set_items (item ∷ items) always = set_item item always (set_items items always)

  -- `none` is NULL; the items are those of a JSON object, so that each has a name.
  unfoldable pub set_from_json : Option (List JsonItem) → Bool → M (State Subsys Heap) Status
  unfolding set_items
  set_from_json none always = pure (err einval)
  set_from_json (some items) always = set_items items always
