-- ===== src/Json/RoundTrip.antt =====
-- Importing what was exported (library/user_settings/user_settings_json.c), and what the import
-- ignores.
use irnas_usersettings_lib.Base.{
  ℕ, ◌-◌, ◌^◌, ◌≤◌, ◌<◌, ◌≡◌, ◌≢◌, ◌⊎◌, inl, inr, ◌∙◌, refl, sym, ap, subst, arith, Bool, true,
  false, some, none, List, [], ◌∷◌, length, take, All, get_elem?, get_elem?-map, Bytes, ok, einval,
  err, done, bind_done, ◌>>=◌, M, Status, Bool-cases,
}
use irnas_usersettings_lib.Setting.{
  UserSetting, UserSettingType, type_bool, type_u8, type_u16, type_u32, type_u64, type_i8, type_i16,
  type_i32, type_i64, type_str, type_bytes,
}
use irnas_usersettings_lib.Platform.{Platform, PlatformLaws}
use irnas_usersettings_lib.State.{State}
use irnas_usersettings_lib.Memory.{
  HasType, le_value, le_bytes, le_value-le_bytes, to_int-pos64_lost, to_int-pos64_fits, to_unsigned,
  to_int, pos,
}
use irnas_usersettings_lib.SettingsList.{get_by_key}
use irnas_usersettings_lib.Settings.Query.{exists_with_key}
use irnas_usersettings_lib.Settings.Change.{set_with_key}
use irnas_usersettings_lib.Settings.Saving.{IsReady}
use irnas_usersettings_lib.Json.{
  JsonValue, json_true, json_false, json_number, json_string, JsonItem, CJson, Building, is_invalid,
  json_bytes, set_bytes, mark, prv_set_from_json, get_all_json, set_item, set_items, set_from_json,
}
use irnas_usersettings_lib.Json.Values.{json_value, exported, IsReadable, HasMemory}
use irnas_usersettings_lib.Json.Export.{get_all_json_lem}
use irnas_usersettings_lib.Json.Carried.{IsPortable, PortableAs}
use irnas_usersettings_lib.Json.Import.{set_items-exported, type_known}

readable :
    (type : UserSettingType) (us : UserSetting)
    → us.value_len ≤ length us.value
    → PortableAs type us
    → HasType type us.value us.value_len
readable type_bool us fits (len, small) = omega arith
readable type_u8 us fits len = omega arith
readable type_u16 us fits len = omega arith
readable type_u32 us fits len = omega arith
readable type_u64 us fits (len, small) = omega arith
readable type_i8 us fits len = omega arith
readable type_i16 us fits len = omega arith
readable type_i32 us fits len = omega arith
readable type_i64 us fits (len, range) = omega arith
readable type_str us fits (s, e, len) = (s, e)
readable type_bytes us fits small = fits

All-IsReadable : (l : List UserSetting) → All IsPortable l → All IsReadable l
All-IsReadable [] t = tt
All-IsReadable (us ∷ l) t = (readable us.setting_type us t.0.fits t.0.typed, All-IsReadable l t.1)

module _ {Subsys Heap JsonHeap : Type 0} {z : Platform Subsys Heap} (laws : PlatformLaws z)
    (c : CJson JsonHeap) (m : HasMemory c) (s : State Subsys Heap) (ready : IsReady laws s)
    (b : Building JsonHeap) where
  -- In a library in order (IsReady), where cJSON has memory and JSON can carry every value
  -- (IsPortable): user_settings_get_all_json returns 0 with an object, and
  -- user_settings_set_from_json of that object, without always_mark_changed, returns 0 and changes
  -- nothing: no value, no flag, nothing that is stored, and no callback of the application is
  -- called.
  pub set_from_json-get_all_json :
      All IsPortable s.settings
      → (object : List JsonItem) × (b' : Building JsonHeap) × (get_all_json c s.settings b
          ≡ done (ok object, b'))
        × (set_from_json z (some object) false s ≡ done (ok tt, s))
  unfolding set_from_json
  set_from_json-get_all_json t =
      let (h, run) = get_all_json_lem c m s.settings b (All-IsReadable s.settings t) in
      (_, _, run, set_items-exported laws s ready s.settings 0 refl t)

module _ {Subsys Heap JsonHeap : Type 0} (z : Platform Subsys Heap) (c : CJson JsonHeap)
    (m : HasMemory c) (s : State Subsys Heap) (always : Bool) (b : Building JsonHeap) where
  -- A value of type U64 between 2^31 and 2^64 - 2^31 does not survive. Where every setting can be
  -- read as its type and cJSON has memory, user_settings_get_all_json returns an object with an item
  -- for the setting; prv_set_from_json of this item calls user_settings_set_with_key with other
  -- bytes than those of the value.
  pub u64_lost :
      (l : List UserSetting) (p : ℕ) (us : UserSetting)
      → All IsReadable l
      → get_elem? l p ≡ some us
      → us.setting_type ≡ type_u64
      → 2 ^ 31 ≤ le_value (take 8 us.value)
      → le_value (take 8 us.value) < 2 ^ 64 - 2 ^ 31
      → (object : List JsonItem) × (item : JsonItem) × (b' : Building JsonHeap) × (bs : Bytes)
        × (get_all_json c l b ≡ done (ok object, b'))
        × (get_elem? object p ≡ some item)
        × (prv_set_from_json z type_u64 item always s
            ≡ (set_with_key z us.key bs >>= mark z always us.key) s)
        × (bs ≢ take 8 us.value)
  unfolding prv_set_from_json
  u64_lost l p us t here typed low high =
      let v = le_value (take 8 us.value) in
      let w = to_unsigned 64 (to_int (pos v)) in
      let (h, run) = get_all_json_lem c m l b t in
      (
        _,
        record { string = us.key; value = json_value type_u64 us },
        _,
        le_bytes 8 w,
        run,
        get_elem?-map exported l p here
            ∙ ap (λ type. some (record { string = us.key; value = json_value type us })) typed,
        refl,
        λ same.
            to_int-pos64_lost v low high
              (sym (le_value-le_bytes 8 w (to_int-pos64_fits v)) ∙ ap le_value same),
      )

-- The JSON types that a setting of a type is set from.
abbrev pub takes_value : UserSettingType → JsonValue → Bool
takes_value type_bool json_true = true
takes_value type_bool json_false = true
takes_value type_bool v = false
takes_value type_str (json_string s) = true
takes_value type_str v = false
takes_value type_bytes (json_string s) = true
takes_value type_bytes v = false
takes_value type (json_number n) = true
takes_value type v = false

-- An item that the import skips: it is invalid, its key is unknown, or its value is of another type
-- than the setting.
abbrev pub IsSkipped : {Subsys Heap : Type 0} → State Subsys Heap → JsonItem → Type 0
IsSkipped s item =
    (is_invalid item.value ≡ true)
    ⊎ ((get_by_key item.string s.settings ≡ none)
        ⊎ ((p : ℕ) × (us : UserSetting) × (get_elem? s.settings p ≡ some us)
            × (us.key ≡ item.string)
            × (takes_value us.setting_type item.value ≡ false)))

not_taken :
    {Subsys Heap : Type 0} (type : UserSettingType) (v : JsonValue) (s : State Subsys Heap)
    → takes_value type v ≡ false
    → json_bytes type v s ≡ done (none, s)
unfolding json_bytes
not_taken type_bool json_true s h = cc
not_taken type_bool json_false s h = cc
not_taken type_str (json_string t) s h = cc
not_taken type_bytes (json_string t) s h = cc
not_taken type_u8 (json_number n) s h = cc
not_taken type_u16 (json_number n) s h = cc
not_taken type_u32 (json_number n) s h = cc
not_taken type_u64 (json_number n) s h = cc
not_taken type_i8 (json_number n) s h = cc
not_taken type_i16 (json_number n) s h = cc
not_taken type_i32 (json_number n) s h = cc
not_taken type_i64 (json_number n) s h = cc
not_taken _ _ s h = refl

module _ {Subsys Heap : Type 0} {z : Platform Subsys Heap} (laws : PlatformLaws z)
    (s : State Subsys Heap) (ready : IsReady laws s) (always : Bool) where
  wrong_type :
      (p : ℕ) (us : UserSetting) (v : JsonValue)
      → takes_value us.setting_type v ≡ false
      → prv_set_from_json z us.setting_type (record { string = us.key; value = v }) always s
        ≡ done (err einval, s)
  unfolding prv_set_from_json
  wrong_type p us v h =
      bind_done (json_bytes us.setting_type v) s (set_bytes z always us.key)
        (not_taken us.setting_type v s h)

  set_item_skipped :
      (item : JsonItem) (rest : M (State Subsys Heap) Status)
      → IsSkipped s item
      → set_item z item always rest s ≡ rest s
  unfolding set_item exists_with_key
  set_item_skipped item rest (inl invalid) = rw invalid refl
  set_item_skipped item rest (inr (inl unknown)) = elim (Bool-cases (is_invalid item.value)) [
    | inl invalid ↦ rw invalid refl
    | inr valid ↦ ground (arith, ready.loaded, valid, unknown)
  ]
  set_item_skipped item rest (inr (inr (p, us, here, same, other))) =
      elim (Bool-cases (is_invalid item.value)) [
        | inl invalid ↦ rw invalid refl
        | inr valid ↦
            let (known, typed) = type_known laws s ready p us here in
            let run = wrong_type p us item.value other in
            subst
              (λ k. set_item z (record { string = k; value = item.value }) always rest s ≡ rest s)
              same (ground (arith, known, typed, run, valid))
      ]

  -- In a library in order (IsReady): where every item of the object is invalid, has a key that is
  -- not known, or has a value of another type than the setting of its key, user_settings_set_from_json
  -- returns 0 and changes nothing.
  pub set_from_json_skips :
      (items : List JsonItem)
      → All (IsSkipped s) items
      → set_from_json z (some items) always s ≡ done (ok tt, s)
  unfolding set_from_json set_items
  set_from_json_skips [] t = refl
  set_from_json_skips (item ∷ items) t =
      set_item_skipped item (set_items z items always) t.0 ∙ set_from_json_skips items t.1
