-- ===== src/Json/Values.antt =====
-- The JSON value of a setting (prv_json_from_setting of
-- library/user_settings/user_settings_json.c).
use irnas_usersettings_lib.Base.{
  ℕ, ◌*◌, ◌≤◌, ◌≡◌, ◌∙◌, ap, arith, Bool, true, false, not, some, List, [], ◌∷◌, ◌++◌, length, take,
  Bytes, ◌==◌, done, M, bind_done, Bool-cases, inl, inr,
}
use irnas_usersettings_lib.Setting.{
  UserSetting, UserSettingType, type_bool, type_u8, type_u16, type_u32, type_u64, type_i8, type_i16,
  type_i32, type_i64, type_str, type_bytes,
}
use irnas_usersettings_lib.Memory.{
  HasType, text, ℤ, pos, as_signed, to_int, le_value, read_unsigned, read_signed,
}
use irnas_usersettings_lib.Hex.{hex_encode}
use irnas_usersettings_lib.Json.{
  JsonValue, json_true, json_false, json_number, json_string, JsonItem, CJson, number, add_item,
  Building, json_of_type, prv_json_from_setting, export_each,
}

abbrev pub json_bool : Bool → JsonValue
json_bool true = json_true
json_bool false = json_false

-- The value of a setting as the code exports it, numbers converted to int.
abbrev pub json_value : UserSettingType → UserSetting → JsonValue
json_value type_bool us = json_bool (not (le_value (take 1 us.value) == 0))
json_value type_u8 us = json_number (to_int (pos (le_value (take 1 us.value))))
json_value type_u16 us = json_number (to_int (pos (le_value (take 2 us.value))))
json_value type_u32 us = json_number (to_int (pos (le_value (take 4 us.value))))
json_value type_u64 us = json_number (to_int (pos (le_value (take 8 us.value))))
json_value type_i8 us = json_number (to_int (as_signed 8 (le_value (take 1 us.value))))
json_value type_i16 us = json_number (to_int (as_signed 16 (le_value (take 2 us.value))))
json_value type_i32 us = json_number (to_int (as_signed 32 (le_value (take 4 us.value))))
json_value type_i64 us = json_number (to_int (as_signed 64 (le_value (take 8 us.value))))
json_value type_str us = json_string (text us.value)
json_value type_bytes us = json_string (hex_encode (take us.value_len us.value))

abbrev pub exported : UserSetting → JsonItem
exported us = record { string = us.key; value = json_value us.setting_type us }

abbrev pub IsReadable : UserSetting → Type 0
IsReadable us = HasType us.setting_type us.value us.value_len

-- What the documentation of cJSON promises of an allocator that has memory.
pub record HasMemory {Heap : Type 0} (c : CJson Heap) : Type 0 where
  pub object_lem : (h : Heap) → (c.create_object h).0 ≡ true
  pub true_lem : (h : Heap) → (c.create_true h).0 ≡ some json_true
  pub false_lem : (h : Heap) → (c.create_false h).0 ≡ some json_false
  pub number_lem : (n : _) (h : Heap) → (c.create_number n h).0 ≡ some (json_number n)
  pub string_lem : (s : Bytes) (h : Heap) → (c.create_string s h).0 ≡ some (json_string s)
  pub add_lem :
      (o : List JsonItem) (key : Bytes) (v : JsonValue) (h : Heap)
      → (c.add_item_to_object o key v h).0 ≡ o ++ record { string = key; value = v } ∷ []

module _ {Heap : Type 0} (c : CJson Heap) (m : HasMemory c) where
  number-value :
      (read : M (Building Heap) ℤ) (v : ℤ) (b : Building Heap)
      → read b ≡ done (v, b)
      → (h : Heap) × (number c read b ≡ done (some (json_number (to_int v)), record b { heap = h }))
  number-value read v b e =
      ((c.create_number (to_int v) b.heap).1, ground (arith, e, m.number_lem (to_int v) b.heap))

  unsigned-value :
      (n : ℕ) (block : Bytes) (b : Building Heap)
      → n ≤ length block
      → let v = pos (le_value (take n block)) in
        (h : Heap) × (number c (read_unsigned n block) b
          ≡ done (some (json_number (to_int v)), record b { heap = h }))
  unsigned-value n block b h =
      number-value (read_unsigned n block) (pos (le_value (take n block))) b (ground arith)

  signed-value :
      (n : ℕ) (block : Bytes) (b : Building Heap)
      → n ≤ length block
      → let v = as_signed (8 * n) (le_value (take n block)) in
        (h : Heap) × (number c (read_signed n block) b
          ≡ done (some (json_number (to_int v)), record b { heap = h }))
  signed-value n block b h =
      number-value (read_signed n block) (as_signed (8 * n) (le_value (take n block))) b
        (ground arith)

  json_of_type-value :
      (type : UserSettingType) (us : UserSetting) (b : Building Heap)
      → HasType type us.value us.value_len
      → (h : Heap) × (json_of_type c type us b
          ≡ done (some (json_value type us), record b { heap = h }))
  unfolding json_of_type
  json_of_type-value type_bool us b t = elim (Bool-cases (le_value (take 1 us.value) == 0)) [
    | inl zero_byte ↦ ((c.create_false b.heap).1, ground (arith, m.false_lem b.heap))
    | inr other ↦ ((c.create_true b.heap).1, ground (arith, m.true_lem b.heap))
  ]
  json_of_type-value type_u8 us b t = unsigned-value 1 us.value b t
  json_of_type-value type_u16 us b t = unsigned-value 2 us.value b t
  json_of_type-value type_u32 us b t = unsigned-value 4 us.value b t
  json_of_type-value type_u64 us b t = unsigned-value 8 us.value b t
  json_of_type-value type_i8 us b t = signed-value 1 us.value b t
  json_of_type-value type_i16 us b t = signed-value 2 us.value b t
  json_of_type-value type_i32 us b t = signed-value 4 us.value b t
  json_of_type-value type_i64 us b t = signed-value 8 us.value b t
  json_of_type-value type_str us b (s, e) =
      ((c.create_string s b.heap).1, ground (arith, m.string_lem s b.heap))
  json_of_type-value type_bytes us b t =
      let s = hex_encode (take us.value_len us.value) in
      ((c.create_string s b.heap).1, ground (arith, m.string_lem s b.heap))

  pub export_each-exported :
      (us : UserSetting) (b : Building Heap)
      → IsReadable us
      → (h : Heap) × (export_each c us b
          ≡ done (tt, record { heap = h; object = b.object ++ exported us ∷ [] }))
  unfolding export_each prv_json_from_setting
  export_each-exported us b t =
      let (h, run) = json_of_type-value us.setting_type us b t in
      let v = json_value us.setting_type us in
      (
        (c.add_item_to_object b.object us.key v h).1,
        bind_done (prv_json_from_setting c us) b (add_item c us.key) run
            ∙ ap
                (λ o.
                  done (
                    tt,
                    record { heap = (c.add_item_to_object b.object us.key v h).1; object = o },
                  ))
                (m.add_lem b.object us.key v h),
      )
