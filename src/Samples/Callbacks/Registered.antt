-- ===== src/Samples/Callbacks/Registered.antt =====
-- The callbacks that samples/callbacks/src/main.c registers.
use irnas_usersettings_lib.Base.{
  ℕ, zero, suc, ◌≡◌, refl, ap, ◌∙◌, true, false, Bool, Option, none, some, List, [], ◌∷◌, map,
  modify, ◌+◌, ◌≤◌, All, sym, get_elem?-map, done, Bytes, bytes_eq, get_elem?, arith,
}
use irnas_usersettings_lib.Setting.{UserSetting, UserSettingType, ValidateCb, IsSound}
use irnas_usersettings_lib.Platform.{Platform, PlatformLaws}
use irnas_usersettings_lib.State.{State}
use irnas_usersettings_lib.SettingsList.{get_by_key, get_by_id}
use irnas_usersettings_lib.SettingsList.Lookup.{IsWellFormed, ids, get_by_id-ids}
use irnas_usersettings_lib.Memory.{to_unsigned}
use irnas_usersettings_lib.Settings.Change.{validated}
use irnas_usersettings_lib.Settings.Query.{
  set_validate_cb_with_key, set_validate_cb_with_id, set_on_change_cb_with_id,
  set_on_change_cb_with_key, set_global_on_change_cb, get_type_with_id,
}
use irnas_usersettings_lib.Settings.Restart.{from_storage}
use irnas_usersettings_lib.Startup.{declared}
use irnas_usersettings_lib.Startup.Loaded.{Keeps, map-ids, from_storage-Keeps}
use irnas_usersettings_lib.ValidationHelpers.{value_at}
use irnas_usersettings_lib.Samples.Settings.{t1_t11, t1_t11-IsWellFormed}
use irnas_usersettings_lib.Samples.Callbacks.{
  int_type, in_bounds, prv_validate_t2_t9, validate_t10, on_change_global, on_change_t1,
  on_change_t2_t10, register_callbacks,
}

-- A setting with its callbacks.
abbrev with_callbacks : Option ℕ → Option ValidateCb → UserSetting → UserSetting
with_callbacks change validate us = record us { on_change_cb = change; validate_cb = validate }

module _ (after : ℕ → ℕ) where
  -- What prv_validate_t2_t9 says of one of the eleven settings.
  abbrev pub verdict_of : ℕ → Option UserSetting → Bytes → Bool
  verdict_of id none bs = false
  verdict_of id (some us) bs = elim (int_type us.setting_type) [
    | none ↦ false
    | some t ↦ in_bounds id (to_unsigned 64 (value_at t bs after))
  ]

  abbrev pub declared_at : Option ℕ → Option UserSetting
  declared_at none = none
  declared_at (some p) = get_elem? (map declared t1_t11) p

  abbrev pub validate_t2_t9 : ValidateCb
  validate_t2_t9 id key bs = verdict_of id (declared_at (get_by_id id (map declared t1_t11))) bs

  -- The settings with their callbacks.
  abbrev pub registered_settings : List UserSetting
  registered_settings =
      let judge = some validate_t2_t9 in
      let set = λ (p : ℕ) (change : Option ℕ) (validate : Option ValidateCb) (l : List UserSetting).
        modify l p (with_callbacks change validate) in
      set 0 (some on_change_t1) none (
        set 1 (some on_change_t2_t10) judge (
          set 2 none judge (
            set 3 none judge (
              set 4 none judge (
                set 5 none judge (
                  set 6 none judge (
                    set 7 none judge (
                      set 8 none judge (
                        set 9 (some on_change_t2_t10) (some (validate_t10 after))
                          (map declared t1_t11))))))))))

module _ {Subsys Heap : Type 0} (after : ℕ → ℕ) where
  pub register_run :
      (s : State Subsys Heap)
      → register_callbacks after
          (validate_t2_t9 after)
          (record s { settings = map declared t1_t11; is_inited = true })
        ≡ done (
          tt,
          record s {
            settings = registered_settings after;
            is_inited = true;
            global_on_change_cb = some on_change_global;
          },
        )
  unfolding register_callbacks set_validate_cb_with_key set_validate_cb_with_id
      set_on_change_cb_with_id set_on_change_cb_with_key set_global_on_change_cb get_by_key
      get_by_id bytes_eq
  register_run s = refl

abbrev types : List UserSetting → List UserSettingType
types = map (λ us. us.setting_type)

map-types :
    (f : UserSetting → UserSetting)
    → ((us : UserSetting) → Keeps us (f us))
    → (l : List UserSetting) → types (map f l) ≡ types l
map-types f k [] = refl
map-types f k (us ∷ l) = ground (arith, (k us).same_type, map-types f k l)

-- Lists with the same types have settings of the same type at a position.
type_at :
    (l m : List UserSetting) (p : ℕ) (us : UserSetting)
    → types l ≡ types m
    → get_elem? m p ≡ some us
    → (us' : UserSetting) × (get_elem? l p ≡ some us') × (us'.setting_type ≡ us.setting_type)
type_at l [] p us same there = cc
type_at [] (y ∷ m) p us same there = cc
type_at (x ∷ l) (y ∷ m) zero us same there = (x, refl, cc)
type_at (x ∷ l) (y ∷ m) (suc p) us same there = type_at l m p us (cc) there

module _ (after : ℕ → ℕ) (f : UserSetting → UserSetting)
    (keeps : (us : UserSetting) → Keeps us (f us)) where
  same_ids : ids (map f (registered_settings after)) ≡ ids (map declared t1_t11)
  same_ids = map-ids f keeps (registered_settings after)

  same_types : types (map f (registered_settings after)) ≡ types (map declared t1_t11)
  same_types = map-types f keeps (registered_settings after)

module _ {Subsys Heap : Type 0} (after : ℕ → ℕ) (f : UserSetting → UserSetting)
    (keeps : (us : UserSetting) → Keeps us (f us)) where
  verdict_run :
      (id p : ℕ) (key bs : Bytes) (us : UserSetting) (s : State Subsys Heap)
      → s.is_loaded ≡ true
      → s.settings ≡ map f (registered_settings after)
      → get_by_id id (map declared t1_t11) ≡ some p
      → get_elem? (map declared t1_t11) p ≡ some us
      → prv_validate_t2_t9 after id key bs s ≡ done (validate_t2_t9 after id key bs, s)
  unfolding prv_validate_t2_t9 get_type_with_id
  verdict_run id p key bs us s loaded here found there =
      let (us', at, same) =
        type_at (map f (registered_settings after)) (map declared t1_t11) p us
          (same_types after f keeps) there in
      let found' : get_by_id id s.settings ≡ some p =
        get_by_id-ids id s.settings (map declared t1_t11) (ap ids here ∙ same_ids after f keeps)
        ∙ found in
      let at' : get_elem? s.settings p ≡ some us' = ap (λ l. get_elem? l p) here ∙ at in
      let says : validate_t2_t9 after id key bs ≡ verdict_of after id (some us) bs =
        ap (λ o. verdict_of after id (declared_at after o) bs) found
        ∙ ap (λ o. verdict_of after id o bs) there in
      ground (arith, loaded, found', at', same, says)

registered-IsSound : (after : ℕ → ℕ) → All IsSound (registered_settings after)
registered-IsSound after = ground arith

pub registered-IsWellFormed : (after : ℕ → ℕ) → IsWellFormed (registered_settings after)
registered-IsWellFormed after = record {
  distinct_ids = t1_t11-IsWellFormed.distinct_ids;
  distinct_keys = t1_t11-IsWellFormed.distinct_keys;
  sound = registered-IsSound after;
}

-- The settings with the IDs 2 to 9, as declared and with their callbacks.
at_position :
    (after : ℕ → ℕ) (p : ℕ)
    → 1 ≤ p
    → p ≤ 8
    → (d : UserSetting) × (r : UserSetting) × (get_elem? (map declared t1_t11) p ≡ some d)
      × (get_elem? (registered_settings after) p ≡ some r)
      × (r.id ≡ p + 1)
      × (r.validate_cb ≡ some (validate_t2_t9 after))
      × (get_by_id (p + 1) (map declared t1_t11) ≡ some p)
unfolding get_by_id
at_position after (suc zero) low high = (_, _, refl, refl, refl, refl, refl)
at_position after (suc (suc zero)) low high = (_, _, refl, refl, refl, refl, refl)
at_position after (suc (suc (suc zero))) low high = (_, _, refl, refl, refl, refl, refl)
at_position after (suc (suc (suc (suc zero)))) low high = (_, _, refl, refl, refl, refl, refl)
at_position after (suc (suc (suc (suc (suc zero))))) low high = (_, _, refl, refl, refl, refl, refl)
at_position after (suc (suc (suc (suc (suc (suc zero)))))) low high =
    (_, _, refl, refl, refl, refl, refl)
at_position after (suc (suc (suc (suc (suc (suc (suc zero))))))) low high =
    (_, _, refl, refl, refl, refl, refl)
at_position after (suc (suc (suc (suc (suc (suc (suc (suc zero)))))))) low high =
    (_, _, refl, refl, refl, refl, refl)
at_position after zero low high = absurd (omega arith)
at_position after (suc (suc (suc (suc (suc (suc (suc (suc (suc p))))))))) low high =
    absurd (omega arith)

module _ {Subsys Heap : Type 0} {z : Platform Subsys Heap} (laws : PlatformLaws z) (after : ℕ → ℕ)
    (sub : Subsys) where
  pub verdict_at :
      (p : ℕ) (us : UserSetting) (bs : Bytes) (s : State Subsys Heap)
      → s.is_loaded ≡ true
      → s.settings ≡ map (from_storage laws sub) (registered_settings after)
      → 1 ≤ p
      → p ≤ 8
      → get_elem? (map (from_storage laws sub) (registered_settings after)) p ≡ some us
      → (us.id ≡ p + 1)
        × (prv_validate_t2_t9 after us.id us.key bs s ≡ done (validated us.validate_cb us bs, s))
  verdict_at p us bs s loaded settings low high here =
      let (d, r, there, at, id, judge, found) = at_position after p low high in
      let keeps = from_storage-Keeps laws sub in
      let same : from_storage laws sub r ≡ us =
        ap (λ o. elim o [ none ↦ us | some u ↦ u ])
          (sym (get_elem?-map (from_storage laws sub) (registered_settings after) p at) ∙ here) in
      let us_id : us.id ≡ p + 1 = ap (λ u. u.id) (sym same) ∙ (keeps r).same_id ∙ id in
      let us_judge : us.validate_cb ≡ some (validate_t2_t9 after) =
        ap (λ u. u.validate_cb) (sym same) ∙ (keeps r).same_callback ∙ judge in
      let run =
        verdict_run after (from_storage laws sub) keeps (p + 1) p us.key bs d s loaded settings
          found there in
      (
        us_id,
        ap (λ i. prv_validate_t2_t9 after i us.key bs s) us_id
            ∙ run
            ∙ ap (λ i. done (validate_t2_t9 after i us.key bs, s)) (sym us_id)
            ∙ ap (λ cb. done (validated cb us bs, s)) (sym us_judge),
      )
