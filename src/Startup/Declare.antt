-- ===== src/Startup/Declare.antt =====
-- Adding the settings that an application declares, with user_settings_add and
-- user_settings_add_sized of library/user_settings/user_settings.c.
use mathlib.Core.List.{append_assoc, append-nil, map-append}
use irnas_usersettings_lib.Base.{
  ℕ, ◌≡◌, ◌≢◌, refl, sym, ap, ◌∙◌, subst, true, false, none, some, List, [], ◌∷◌, ◌++◌, map, arith,
  length, All, Distinct, Bytes, bytes_eq-false, done, bind_done, fault, assertion, Option,
  bind_fault, Outcome, Option-cases, inl, inr,
}
use irnas_usersettings_lib.Setting.{UserSetting, UserSettingType, is_sized_type}
use irnas_usersettings_lib.Platform.{Platform}
use irnas_usersettings_lib.State.{State}
use irnas_usersettings_lib.SettingsList.{
  get_by_id, get_by_key, prv_type_to_size, prv_user_settings_list_add, new_setting,
}
use irnas_usersettings_lib.SettingsList.Lookup.{ids, keys}
use irnas_usersettings_lib.Settings.Init.{add, add_sized}
use irnas_usersettings_lib.Startup.{
  Declaration, plain, sized, IsProper, byte_size, block_size, declared, declare, declare_all,
  allocate, allocate_all,
}

All-here :
    {A : Type 0} (P : A → Type 0) (xs : List A) (a : A) (ys : List A) → All P (xs ++ a ∷ ys) → P a
All-here P [] a ys h = h.0
All-here P (x ∷ xs) a ys h = All-here P xs a ys h.1

-- An entry differs from every entry before it.
Distinct-before :
    {A : Type 0} (xs : List A) (a : A) (ys : List A) → Distinct (xs ++ a ∷ ys) → All (λ x. x ≢ a) xs
Distinct-before [] a ys d = tt
Distinct-before (x ∷ xs) a ys d = (All-here (λ y. x ≢ y) xs a ys d.0, Distinct-before xs a ys d.1)

id-missing : (id : ℕ) (l : List UserSetting) → All (λ i. i ≢ id) (ids l) → get_by_id id l ≡ none
unfolding get_by_id
id-missing id [] h = refl
id-missing id (us ∷ l) h = ground (arith, h.0, id-missing id l h.1)

key-missing :
    (key : Bytes) (l : List UserSetting) → All (λ k. k ≢ key) (keys l) → get_by_key key l ≡ none
unfolding get_by_key
key-missing key [] h = refl
key-missing key (us ∷ l) h =
    ground (arith, bytes_eq-false key us.key (λ e. h.0 (sym e)), key-missing key l h.1)

module _ {Subsys Heap : Type 0} where
  prv_type_to_size-byte_size :
      (type : UserSettingType) (s : State Subsys Heap)
      → is_sized_type type ≡ false
      → prv_type_to_size type s ≡ done (byte_size type, s)
  unfolding prv_type_to_size
  prv_type_to_size-byte_size type s h = ground arith

module _ {Subsys Heap : Type 0} (z : Platform Subsys Heap) where
  add_block :
      (id : ℕ) (key : Bytes) (type : UserSettingType) (size : ℕ) (s : State Subsys Heap) (h : Heap)
      → get_by_id id s.settings ≡ none
      → get_by_key key s.settings ≡ none
      → allocate z size s.heap ≡ some h
      → prv_user_settings_list_add z id key type size s
        ≡ done (
          length s.settings,
          record s { heap = h; settings = s.settings ++ new_setting id key type size ∷ [] },
        )
  unfolding prv_user_settings_list_add
  add_block id key type size s h no_id no_key room = ground arith

  block_full :
      (id : ℕ) (key : Bytes) (type : UserSettingType) (size : ℕ) (s : State Subsys Heap)
      → get_by_id id s.settings ≡ none
      → get_by_key key s.settings ≡ none
      → allocate z size s.heap ≡ none
      → prv_user_settings_list_add z id key type size s ≡ fault assertion
  unfolding prv_user_settings_list_add
  block_full id key type size s no_id no_key full = ground arith

  -- With the library initialised, an ID and a key that are not taken and room on the heap: the
  -- declared setting is added after the others.
  declare_one :
      (d : Declaration) (s : State Subsys Heap) (h : Heap)
      → s.is_inited ≡ true
      → IsProper d
      → get_by_id (declared d).id s.settings ≡ none
      → get_by_key (declared d).key s.settings ≡ none
      → allocate z (block_size d) s.heap ≡ some h
      → declare z d s ≡ done (tt, record s { heap = h; settings = s.settings ++ declared d ∷ [] })
  unfolding add add_sized
  declare_one (plain id key type) s h inited proper no_id no_key room = ground (
    arith,
    prv_type_to_size-byte_size type s proper,
    add_block id key type (byte_size type) s h no_id no_key room,
  )
  declare_one (sized id key type size) s h inited proper no_id no_key room =
      ground (arith, add_block id key type size s h no_id no_key room)

  declare_one_full :
      (d : Declaration) (s : State Subsys Heap)
      → s.is_inited ≡ true
      → IsProper d
      → get_by_id (declared d).id s.settings ≡ none
      → get_by_key (declared d).key s.settings ≡ none
      → allocate z (block_size d) s.heap ≡ none
      → declare z d s ≡ fault assertion
  unfolding add add_sized
  declare_one_full (plain id key type) s inited proper no_id no_key full = ground (
    arith,
    prv_type_to_size-byte_size type s proper,
    block_full id key type (byte_size type) s no_id no_key full,
  )
  declare_one_full (sized id key type size) s inited proper no_id no_key full =
      ground (arith, block_full id key type size s no_id no_key full)

-- The first of several declarations that share no ID and no key with each other or the list.
module _ (l : List UserSetting) (us : UserSetting) (rest : List UserSetting) where
  fresh :
      {A : Type 0} (f : UserSetting → A)
      → Distinct (map f (l ++ us ∷ rest))
      → All (λ x. x ≢ f us) (map f l)
  fresh f d =
      Distinct-before (map f l) (f us) (map f rest) (subst Distinct (map-append f l (us ∷ rest)) d)

  first_id : Distinct (ids (l ++ us ∷ rest)) → get_by_id us.id l ≡ none
  first_id d = id-missing us.id l (fresh (λ us. us.id) d)

  first_key : Distinct (keys (l ++ us ∷ rest)) → get_by_key us.key l ≡ none
  first_key d = key-missing us.key l (fresh (λ us. us.key) d)

  line : (l ++ us ∷ []) ++ rest ≡ l ++ us ∷ rest
  line = append_assoc l (us ∷ []) rest

module _ {Subsys Heap : Type 0} where
  -- The settings after the declarations, or a failed assertion where the heap is full.
  abbrev pub filled :
      List UserSetting → State Subsys Heap → Option Heap → Outcome (Unit {0} × State Subsys Heap)
  filled l s none = fault assertion
  filled l s (some h) = done (tt, record s { heap = h; settings = l })

module _ {Subsys Heap : Type 0} (z : Platform Subsys Heap) where
  filled-next :
      (s next : State Subsys Heap) {l l' : List UserSetting}
      → l ≡ l'
      → record next { heap = s.heap; settings = s.settings } ≡ s
      → (o : Option Heap) → filled l next o ≡ filled l' s o
  filled-next s next same back none = refl
  filled-next s next {l} {l'} same back (some h) =
      ap (λ l. done (tt, record next { heap = h; settings = l })) same
      ∙ ap (λ t. done (tt, record t { heap = h; settings = l' })) back

  pub declare_all_lem :
      (ds : List Declaration) (s : State Subsys Heap)
      → s.is_inited ≡ true
      → All IsProper ds
      → Distinct (ids (s.settings ++ map declared ds))
      → Distinct (keys (s.settings ++ map declared ds))
      → declare_all z ds s ≡ filled (s.settings ++ map declared ds) s (allocate_all z ds s.heap)
  unfolding declare_all
  declare_all_lem [] s inited proper d_ids d_keys =
      ap (λ l. done (tt, record s { settings = l })) (sym (append-nil s.settings))
  declare_all_lem (d ∷ ds) s inited proper d_ids d_keys =
      let rest = map declared ds in
      let no_id = first_id s.settings (declared d) rest d_ids in
      let no_key = first_key s.settings (declared d) rest d_keys in
      let same = line s.settings (declared d) rest in
      let all_left = λ (o : Option Heap).
        filled (s.settings ++ declared d ∷ rest) s
          (elim o as (λ _. Option Heap) [ none ↦ none | some h ↦ allocate_all z ds h ]) in
      elim (Option-cases (allocate z (block_size d) s.heap)) [
        | inl full ↦
            bind_fault (declare z d) s (λ _. declare_all z ds)
              (declare_one_full z d s inited proper.0 no_id no_key full)
            ∙ ap all_left (sym full)
        | inr (h₁, fits) ↦
            let next = record s { heap = h₁; settings = s.settings ++ declared d ∷ [] } in
            bind_done (declare z d) s (λ _. declare_all z ds)
              (declare_one z d s h₁ inited proper.0 no_id no_key fits)
            ∙ declare_all_lem ds next inited proper.1
                (subst (λ l. Distinct (ids l)) (sym same) d_ids)
                (subst (λ l. Distinct (keys l)) (sym same) d_keys)
            ∙ filled-next s next same refl (allocate_all z ds h₁)
            ∙ ap all_left (sym fits)
      ]
