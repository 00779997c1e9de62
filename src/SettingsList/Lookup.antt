-- ===== src/SettingsList/Lookup.antt =====
-- What user_settings_list_get_by_key and user_settings_list_get_by_id of
-- library/user_settings/user_settings_list.c find.
use irnas_usersettings_lib.Base.{
  ℕ, ◌≡◌, ◌≢◌, ◌↔◌, refl, sym, ap, ◌∙◌, false, none, some, List, map, arith, get_elem?, modify, All,
  Distinct, Bytes, bytes_eq, bytes_eq_refl, bytes_eq-true, bytes_eq-false, ◌==◌, ==_iff, find_index,
  find_index-some, find_index-none, find_index-map, find_index_self, All-map, All-modify_at,
  map-modify,
}
use mathlib.Core.Bool.{false≢true}
use irnas_usersettings_lib.Setting.{UserSetting, IsSound}
use irnas_usersettings_lib.SettingsList.{get_by_key, get_by_id}

abbrev pub ids : List UserSetting → List ℕ
ids = map (λ us. us.id)

abbrev pub keys : List UserSetting → List Bytes
keys = map (λ us. us.key)

-- The list of settings is in order: no two settings share an ID or a key, and each is sound.
pub record IsWellFormed (l : List UserSetting) : Type 0 where
  pub distinct_ids : Distinct (ids l)
  pub distinct_keys : Distinct (keys l)
  pub sound : All IsSound l

eq_comm : (a b : ℕ) → a ≢ b → (b == a) ≡ false
eq_comm a b h = ground arith

key_comm : (a b : Bytes) → a ≢ b → bytes_eq b a ≡ false
key_comm a b h = bytes_eq-false b a (λ e. h (sym e))

-- In a well-formed list, looking up a key gives the position p exactly when the setting at p has
-- that key.
pub get_by_key_iff :
    (key : Bytes) (l : List UserSetting) (p : ℕ)
    → IsWellFormed l
    → (get_by_key key l ≡ some p)
      ↔ ((us : UserSetting) × (get_elem? l p ≡ some us) × (us.key ≡ key))
unfolding get_by_key
get_by_key_iff key l p w = (found, finds)
  where
    found :
        find_index (λ us. bytes_eq key us.key) l ≡ some p
        → (us : UserSetting) × (get_elem? l p ≡ some us) × (us.key ≡ key)
    found h =
        let (us, at, pass) = find_index-some (λ us. bytes_eq key us.key) l h in
        (us, at, sym (bytes_eq-true key us.key pass))

    finds :
        (us : UserSetting) × (get_elem? l p ≡ some us) × (us.key ≡ key)
        → find_index (λ us. bytes_eq key us.key) l ≡ some p
    finds (us, at, e) =
        rw (← e)
          (find_index_self bytes_eq (λ us. us.key) bytes_eq_refl key_comm l p w.distinct_keys at)

-- In a well-formed list, looking up an ID gives the position p exactly when the setting at p has
-- that ID.
pub get_by_id_iff :
    (id : ℕ) (l : List UserSetting) (p : ℕ)
    → IsWellFormed l
    → (get_by_id id l ≡ some p) ↔ ((us : UserSetting) × (get_elem? l p ≡ some us) × (us.id ≡ id))
unfolding get_by_id
get_by_id_iff id l p w = (found, finds)
  where
    found :
        find_index (λ us. id == us.id) l ≡ some p
        → (us : UserSetting) × (get_elem? l p ≡ some us) × (us.id ≡ id)
    found h =
        let (us, at, pass) = find_index-some (λ us. id == us.id) l h in
        (us, at, sym ((==_iff id us.id).0 pass))

    finds :
        (us : UserSetting) × (get_elem? l p ≡ some us) × (us.id ≡ id)
        → find_index (λ us. id == us.id) l ≡ some p
    finds (us, at, e) =
        rw (← e)
          (find_index_self ◌==◌ (λ us. us.id) (λ a. ground arith) eq_comm l p w.distinct_ids at)

pub get_by_key_self :
    {l : List UserSetting} (p : ℕ) (us : UserSetting)
    → IsWellFormed l
    → get_elem? l p ≡ some us
    → get_by_key us.key l ≡ some p
get_by_key_self {l} p us w at = (get_by_key_iff us.key l p w).1 (us, at, refl)

pub get_by_id_self :
    {l : List UserSetting} (p : ℕ) (us : UserSetting)
    → IsWellFormed l
    → get_elem? l p ≡ some us
    → get_by_id us.id l ≡ some p
get_by_id_self {l} p us w at = (get_by_id_iff us.id l p w).1 (us, at, refl)

pub get_by_key-none :
    (key : Bytes) (l : List UserSetting) → get_by_key key l ≡ none → All (λ k. k ≢ key) (keys l)
unfolding get_by_key
get_by_key-none key l h =
    All-map _ (λ k. k ≢ key) (λ us. us.key)
      (λ us miss e. false≢true (sym miss ∙ ap (bytes_eq key) e ∙ bytes_eq_refl key)) l
      (find_index-none (λ us. bytes_eq key us.key) l h)

pub get_by_id-none :
    (id : ℕ) (l : List UserSetting) → get_by_id id l ≡ none → All (λ i. i ≢ id) (ids l)
unfolding get_by_id
get_by_id-none id l h =
    All-map _ (λ i. i ≢ id) (λ us. us.id) (λ us miss e. ground arith) l
      (find_index-none (λ us. id == us.id) l h)

-- Lookups by key depend on the keys alone.
pub get_by_key-keys :
    (key : Bytes) (l m : List UserSetting) → keys l ≡ keys m → get_by_key key l ≡ get_by_key key m
unfolding get_by_key
get_by_key-keys key l m e =
    find_index-map (bytes_eq key) (λ us. us.key) l
    ∙ ap (find_index (bytes_eq key)) e
    ∙ sym (find_index-map (bytes_eq key) (λ us. us.key) m)

pub get_by_id-ids :
    (id : ℕ) (l m : List UserSetting) → ids l ≡ ids m → get_by_id id l ≡ get_by_id id m
unfolding get_by_id
get_by_id-ids id l m e =
    find_index-map (λ x. id == x) (λ us. us.id) l
    ∙ ap (find_index (λ x. id == x)) e
    ∙ sym (find_index-map (λ x. id == x) (λ us. us.id) m)

-- A write through a pointer that leaves ID and key alone and the setting sound keeps the list well
-- formed.
pub modify-IsWellFormed :
    (l : List UserSetting) (p : ℕ) (f : UserSetting → UserSetting) {us : UserSetting}
    → get_elem? l p ≡ some us
    → ((a : UserSetting) → (f a).id ≡ a.id)
    → ((a : UserSetting) → (f a).key ≡ a.key)
    → IsSound (f us)
    → IsWellFormed l
    → IsWellFormed (modify l p f)
modify-IsWellFormed l p f here same_id same_key sound w = record {
  distinct_ids = rw (map-modify (λ (us : UserSetting). us.id) l p f same_id) w.distinct_ids;
  distinct_keys = rw (map-modify (λ (us : UserSetting). us.key) l p f same_key) w.distinct_keys;
  sound = All-modify_at IsSound l p f here sound w.sound;
}
