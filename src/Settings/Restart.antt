-- ===== src/Settings/Restart.antt =====
-- user_settings_load of library/user_settings/user_settings.c after a restart: the settings are
-- what the storage says.
use mathlib.Core.List.{map-map, map-id}
use mathlib.Core.Path.{fun_ext}
use irnas_usersettings_lib.Base.{
  ◌≡◌, ◌≢◌, refl, sym, ap, ◌∙◌, subst, true, false, Option, none, some, List, [], ◌∷◌, map, arith,
  All, Distinct, Bytes, bytes_eq, bytes_eq-true, bytes_eq-false, if◌then◌else◌, ok, Bool-cases, inl,
  inr, done, ◌>>=◌, pure, bind_done,
}
use irnas_usersettings_lib.Setting.{UserSetting}
use irnas_usersettings_lib.Platform.{
  Platform, PlatformLaws, Handler, default_sh, value_sh, changed_sh, prefix, full_name,
}
use irnas_usersettings_lib.State.{State}
use irnas_usersettings_lib.SettingsList.Lookup.{keys}
use irnas_usersettings_lib.Settings.Handlers.{h_set}
use irnas_usersettings_lib.Settings.Init.{deliver, load_subtree, load}
use irnas_usersettings_lib.Settings.Saving.{call_with}
use irnas_usersettings_lib.Settings.Loading.{
  restored, at_key, restore_all, pair_lookup, restored_opt, h_set-restored,
}

-- What the documentation of the settings subsystem promises of settings_load_subtree: the handler
-- of the subtree is called once for each pair that is stored under it.
pub record LoadLaws {Subsys Heap : Type 0} {z : Platform Subsys Heap} (laws : PlatformLaws z)
    : Type 0 where
  pub pairs : Handler → Subsys → List (Bytes × Bytes)
  pub pairs_distinct : (h : Handler) (sub : Subsys) → Distinct (map (λ p. p.0) (pairs h sub))
  pub pairs_stored :
      (h : Handler) (key : Bytes) (sub : Subsys)
      → pair_lookup key (pairs h sub) ≡ laws.stored (full_name h key) sub
  pub load_calls :
      (h : Handler) (sub : Subsys)
      → laws.registered h sub ≡ true
      → z.settings_load_subtree (prefix h) sub
        ≡ (map (λ p. (h, call_with p.0 p.1)) (pairs h sub), ok tt)

pub restored-key : (h : Handler) (bs : Bytes) (us : UserSetting) → (restored h bs us).key ≡ us.key
restored-key default_sh [] us = refl
restored-key value_sh [] us = refl
restored-key changed_sh [] us = refl
restored-key default_sh (b ∷ bs) us = ground arith
restored-key value_sh (b ∷ bs) us = ground arith
restored-key changed_sh (b ∷ bs) us = refl

at_key-restored-key :
    (h : Handler) (key bs : Bytes) (us : UserSetting) → (at_key key (restored h bs) us).key ≡ us.key
at_key-restored-key h key bs us = elim (Bool-cases (bytes_eq key us.key)) [
  | inl same ↦ ap (λ b. (if b then restored h bs us else us).key) same ∙ restored-key h bs us
  | inr other ↦ ap (λ b. (if b then restored h bs us else us).key) other
]

pub keys-map :
    (f : UserSetting → UserSetting) (l : List UserSetting)
    → ((us : UserSetting) → (f us).key ≡ us.key)
    → keys (map f l) ≡ keys l
keys-map f [] h = refl
keys-map f (us ∷ l) h = ground (arith, h us, keys-map f l h)

module _ {Subsys Heap : Type 0} (z : Platform Subsys Heap) where
  deliver_lem :
      (h : Handler) (pairs : List (Bytes × Bytes)) (s : State Subsys Heap)
      → s.is_loaded ≡ false
      → Distinct (keys s.settings)
      → deliver z (map (λ p. (h, call_with p.0 p.1)) pairs) s
        ≡ done (tt, record s { settings = map (restore_all h pairs) s.settings })
  unfolding deliver
  deliver_lem h [] s fresh d =
      ap (λ l. done (tt, record s { settings = l })) (sym (map-id s.settings))
  deliver_lem h ((key, bs) ∷ pairs) s fresh d =
      let (r, run) = h_set-restored h key bs s fresh d in
      let f = at_key key (restored h bs) in
      let s' = record s { settings = map f s.settings } in
      let d' = subst Distinct (sym (keys-map f s.settings (at_key-restored-key h key bs))) d in
      bind_done (h_set h (call_with key bs)) s
        (λ _. deliver z (map (λ p. (h, call_with p.0 p.1)) pairs)) run
      ∙ deliver_lem h pairs s' fresh d'
      ∙ ap (λ l. done (tt, record s { settings = l })) (map-map (restore_all h pairs) f s.settings)

-- A missing key leaves a setting alone.
restore_all-none :
    (h : Handler) (key : Bytes) (pairs : List (Bytes × Bytes)) (us : UserSetting)
    → us.key ≡ key
    → All (λ k. key ≢ k) (map (λ p. p.0) pairs)
    → restore_all h pairs us ≡ us
restore_all-none h key [] us e d = refl
restore_all-none h key ((k, bs) ∷ pairs) us e d =
    let other : bytes_eq k us.key ≡ false = bytes_eq-false k us.key (λ q. d.0 (sym e ∙ sym q)) in
    ap (λ b. restore_all h pairs (if b then restored h bs us else us)) other
    ∙ restore_all-none h key pairs us e d.1

-- Of pairs with distinct keys at most one concerns a setting.
restore_all-lookup :
    (h : Handler) (pairs : List (Bytes × Bytes)) (us : UserSetting)
    → Distinct (map (λ p. p.0) pairs)
    → restore_all h pairs us ≡ restored_opt h (pair_lookup us.key pairs) us
restore_all-lookup h [] us d = refl
restore_all-lookup h ((k, bs) ∷ pairs) us d = elim (Bool-cases (bytes_eq k us.key)) [
  | inl same ↦
      ap (λ b. restore_all h pairs (if b then restored h bs us else us)) same
      ∙ restore_all-none h k pairs (restored h bs us)
          (restored-key h bs us ∙ sym (bytes_eq-true k us.key same)) d.0
      ∙ ap (λ b. restored_opt h (if b then some bs else pair_lookup us.key pairs) us) (sym same)
  | inr other ↦
      ap (λ b. restore_all h pairs (if b then restored h bs us else us)) other
      ∙ restore_all-lookup h pairs us d.1
      ∙ ap (λ b. restored_opt h (if b then some bs else pair_lookup us.key pairs) us) (sym other)
]

-- A setting as one subtree of the storage says.
abbrev pub from_store :
    {Subsys Heap : Type 0} {z : Platform Subsys Heap}
    → PlatformLaws z
    → Subsys
    → Handler
    → UserSetting
    → UserSetting
from_store laws sub h us = restored_opt h (laws.stored (full_name h us.key) sub) us

-- As the three subtrees say, in the order in which they are loaded.
abbrev pub from_storage :
    {Subsys Heap : Type 0} {z : Platform Subsys Heap}
    → PlatformLaws z
    → Subsys
    → UserSetting
    → UserSetting
from_storage laws sub us =
    from_store laws sub changed_sh
      (from_store laws sub value_sh (from_store laws sub default_sh us))

module _ {Subsys Heap : Type 0} {z : Platform Subsys Heap} (laws : PlatformLaws z)
    (load_laws : LoadLaws laws) where
  pub from_store-key :
      (sub : Subsys) (h : Handler) (us : UserSetting) → (from_store laws sub h us).key ≡ us.key
  from_store-key sub h us = opt_key (laws.stored (full_name h us.key) sub)
    where
      opt_key : (o : Option Bytes) → (restored_opt h o us).key ≡ us.key
      opt_key none = refl
      opt_key (some bs) = restored-key h bs us

  load_subtree_lem :
      (h : Handler) (s : State Subsys Heap)
      → laws.registered h s.subsys ≡ true
      → s.is_loaded ≡ false
      → Distinct (keys s.settings)
      → load_subtree z h s
        ≡ done (ok tt, record s { settings = map (from_store laws s.subsys h) s.settings })
  unfolding load_subtree
  load_subtree_lem h s registered fresh d =
      let pairs = load_laws.pairs h s.subsys in
      ap (λ l. (deliver z l.0 >>= λ _. pure l.1) s) (load_laws.load_calls h s.subsys registered)
      ∙ bind_done (deliver z (map (λ p. (h, call_with p.0 p.1)) pairs)) s (λ _. pure (ok tt))
          (deliver_lem z h pairs s fresh d)
      ∙ ap (λ f. done (ok tt, record s { settings = map f s.settings }))
          (fun_ext λ us.
            restore_all-lookup h pairs us (load_laws.pairs_distinct h s.subsys)
            ∙ ap (λ o. restored_opt h o us) (load_laws.pairs_stored h us.key s.subsys))

  -- Where no settings have been loaded yet, the keys are distinct and the handlers are registered:
  -- user_settings_load returns 0, and every setting is then what is stored under its key, the
  -- default first, then the value, then the changed flag; what does not fit or is not stored leaves
  -- the setting alone, no callback of the application is called, and nothing else changes.
  pub load-from_storage :
      (s : State Subsys Heap)
      → s.is_inited ≡ true
      → s.is_loaded ≡ false
      → Distinct (keys s.settings)
      → ((h : Handler) → laws.registered h s.subsys ≡ true)
      → load z s
        ≡ done (
          ok tt,
          record s { settings = map (from_storage laws s.subsys) s.settings; is_loaded = true },
        )
  unfolding load
  load-from_storage s inited fresh d registered =
      let after = λ (h : Handler) (l : List UserSetting). map (from_store laws s.subsys h) l in
      let keep = λ (h : Handler) (l : List UserSetting).
        keys-map (from_store laws s.subsys h) l (from_store-key s.subsys h) in
      let l₁ = after default_sh s.settings in
      let l₂ = after value_sh l₁ in
      let d₁ = subst Distinct (sym (keep default_sh s.settings)) d in
      let d₂ = subst Distinct (sym (keep value_sh l₁)) d₁ in
      let e₁ = load_subtree_lem default_sh s (registered default_sh) fresh d in
      let e₂ =
        load_subtree_lem value_sh (record s { settings = l₁ }) (registered value_sh) fresh d₁ in
      let e₃ =
        load_subtree_lem changed_sh (record s { settings = l₂ }) (registered changed_sh) fresh d₂ in
      let fused =
        map-map (from_store laws s.subsys value_sh) (from_store laws s.subsys default_sh)
          s.settings in
      let fused' =
        map-map (from_store laws s.subsys changed_sh)
          (λ us. from_store laws s.subsys value_sh (from_store laws s.subsys default_sh us))
          s.settings in
      let l : map (from_store laws s.subsys changed_sh) l₂
          ≡ map (from_storage laws s.subsys) s.settings =
        ap (map (from_store laws s.subsys changed_sh)) fused ∙ fused' in
      ground (arith, inited, e₁, e₂, e₃, l)
