-- ===== src/Settings/Loading.antt =====
-- What user_settings_load of library/user_settings/user_settings.c makes of the pairs that are
-- stored.
use irnas_usersettings_lib.Base.{
  ℕ, zero, suc, ◌≡◌, ◌≢◌, refl, sym, ap, ◌∙◌, false, not, Option, none, some, List, [], ◌∷◌, map,
  arith, length, take, take_all, modify, get_elem?, get_elem?-modify_self, All, Distinct,
  find_index, find_index-some, find_index-none, Bytes, bytes_eq, bytes_eq-true, bytes_eq-false, ltb,
  ◌==◌, if◌then◌else◌, Status, ok, err, enoent, einval, Option-cases, Bool-cases, inl, inr, done,
}
use irnas_usersettings_lib.Setting.{UserSetting}
use irnas_usersettings_lib.Platform.{Handler, default_sh, value_sh, changed_sh}
use irnas_usersettings_lib.State.{State}
use irnas_usersettings_lib.SettingsList.{get_by_key}
use irnas_usersettings_lib.SettingsList.Lookup.{keys}
use irnas_usersettings_lib.Settings.Handlers.{
  with_default, with_value, with_changed_flag, call_on_change, h_set,
}
use irnas_usersettings_lib.Settings.Saving.{call_with}

-- A setting after its callback was called with the bytes that are stored.
abbrev pub restored : Handler → Bytes → UserSetting → UserSetting
restored h [] us = us
restored default_sh (b ∷ bs) us =
    if ltb us.max_size (length (b ∷ bs)) then us else with_default (b ∷ bs) us
restored value_sh (b ∷ bs) us =
    if ltb us.max_size (length (b ∷ bs)) then us else with_value (b ∷ bs) us
restored changed_sh (b ∷ bs) us = with_changed_flag (not (b == 0)) us

abbrev pub at_key : Bytes → (UserSetting → UserSetting) → UserSetting → UserSetting
at_key key f us = if bytes_eq key us.key then f us else us

-- The same for all pairs, in order.
abbrev pub restore_all : Handler → List (Bytes × Bytes) → UserSetting → UserSetting
restore_all h [] us = us
restore_all h ((key, bs) ∷ pairs) us = restore_all h pairs (at_key key (restored h bs) us)

abbrev pub pair_lookup : Bytes → List (Bytes × Bytes) → Option Bytes
pair_lookup key [] = none
pair_lookup key ((k, bs) ∷ pairs) = if bytes_eq k key then some bs else pair_lookup key pairs

abbrev pub restored_opt : Handler → Option Bytes → UserSetting → UserSetting
restored_opt h none us = us
restored_opt h (some bs) us = restored h bs us

map-others :
    (key : Bytes) (f : UserSetting → UserSetting) (l : List UserSetting)
    → All (λ k. key ≢ k) (keys l)
    → map (at_key key f) l ≡ l
map-others key f [] h = refl
map-others key f (us ∷ l) h = ground (arith, bytes_eq-false key us.key h.0, map-others key f l h.1)

map-missing :
    (key : Bytes) (f : UserSetting → UserSetting) (l : List UserSetting)
    → All (λ us. bytes_eq key us.key ≡ false) l
    → map (at_key key f) l ≡ l
map-missing key f [] h = refl
map-missing key f (us ∷ l) h = ground (arith, h.0, map-missing key f l h.1)

modify-map :
    (key : Bytes) (f : UserSetting → UserSetting) (l : List UserSetting) (p : ℕ)
    → Distinct (keys l)
    → get_by_key key l ≡ some p
    → modify l p f ≡ map (at_key key f) l
unfolding get_by_key
modify-map key f [] p d e = cc
modify-map key f (us ∷ l) p d e = elim (Bool-cases (bytes_eq key us.key)) [
  | inl same ↦
      let rest = map-others us.key f l d.0 in
      let same' = bytes_eq-true key us.key same in ground (arith, same, same', rest)
  | inr other ↦ elim (Option-cases (find_index (λ us. bytes_eq key us.key) l)) [
    | inl none_left ↦ ground (arith, other, none_left)
    | inr (q, found) ↦ ground (arith, other, found, modify-map key f l q d.1 found)
  ]
]

modify_fixed :
    (l : List UserSetting) (p : ℕ) (f : UserSetting → UserSetting) (us : UserSetting)
    → get_elem? l p ≡ some us
    → f us ≡ us
    → modify l p f ≡ l
modify_fixed [] p f us here same = refl
modify_fixed (x ∷ l) zero f us here same =
    let e : x ≡ us = cc in ap (λ y. y ∷ l) (ap f e ∙ same ∙ sym e)
modify_fixed (x ∷ l) (suc p) f us here same = ap (◌∷◌ x) (modify_fixed l p f us here same)

modify_cong :
    (l : List UserSetting) (p : ℕ) (f g : UserSetting → UserSetting) (us : UserSetting)
    → get_elem? l p ≡ some us
    → f us ≡ g us
    → modify l p f ≡ modify l p g
modify_cong [] p f g us here same = refl
modify_cong (x ∷ l) zero f g us here same =
    let e : x ≡ us = cc in ap (λ y. y ∷ l) (ap f e ∙ same ∙ ap g (sym e))
modify_cong (x ∷ l) (suc p) f g us here same = ap (◌∷◌ x) (modify_cong l p f g us here same)

take_none : (n : ℕ) → take {A = ℕ} n [] ≡ []
take_none zero = refl
take_none (suc n) = refl

module _ {Subsys Heap : Type 0} where
  quiet :
      (cb : Option ℕ) (us : UserSetting) (s : State Subsys Heap)
      → s.is_loaded ≡ false
      → call_on_change cb us s ≡ s
  quiet none us s h = refl
  quiet (some c) us s h = rw h

  h_set_missing :
      (h : Handler) (key bs : Bytes) (s : State Subsys Heap)
      → get_by_key key s.settings ≡ none
      → h_set h (call_with key bs) s ≡ done (err enoent, s)
  unfolding h_set
  h_set_missing default_sh key bs s missing = ground arith
  h_set_missing value_sh key bs s missing = ground arith
  h_set_missing changed_sh key bs s missing = ground arith

  h_set_at :
      (h : Handler) (key bs : Bytes) (p : ℕ) (us : UserSetting) (s : State Subsys Heap)
      → s.is_loaded ≡ false
      → get_by_key key s.settings ≡ some p
      → get_elem? s.settings p ≡ some us
      → (r : Status) × (h_set h (call_with key bs) s
          ≡ done (r, record s { settings = modify s.settings p (restored h bs) }))
  unfolding h_set
  h_set_at changed_sh key [] p us s fresh found here =
      (ok tt, ground (arith, modify_fixed s.settings p (restored changed_sh []) us here refl))
  h_set_at changed_sh key (b ∷ bs) p us s fresh found here = (ok tt, ground arith)
  h_set_at default_sh key [] p us s fresh found here = (
    ok tt,
    ground (
      arith,
      take_none us.max_size,
      modify_fixed s.settings p (restored default_sh []) us here refl,
    ),
  )
  h_set_at default_sh key (b ∷ bs) p us s fresh found here =
      let f = restored default_sh (b ∷ bs) in
      elim (Bool-cases (ltb us.max_size (length (b ∷ bs)))) [
        | inl long ↦
            let same = modify_fixed s.settings p f us here (rw long) in
            (err einval, ground (arith, same))
        | inr fits ↦
            let same = modify_cong s.settings p f (with_default (b ∷ bs)) us here (rw fits) in
            let whole = take_all us.max_size (b ∷ bs) (ground arith) in
            (ok tt, ground (arith, whole, same))
      ]
  h_set_at value_sh key [] p us s fresh found here = (
    ok tt,
    ground (
      arith,
      take_none us.max_size,
      modify_fixed s.settings p (restored value_sh []) us here refl,
    ),
  )
  h_set_at value_sh key (b ∷ bs) p us s fresh found here =
      let f = restored value_sh (b ∷ bs) in
      elim (Bool-cases (ltb us.max_size (length (b ∷ bs)))) [
        | inl long ↦
            let same = modify_fixed s.settings p f us here (rw long) in
            (err einval, ground (arith, same))
        | inr fits ↦
            let same = modify_cong s.settings p f (with_value (b ∷ bs)) us here (rw fits) in
            let written = record s { settings = modify s.settings p (with_value (b ∷ bs)) } in
            let whole = take_all us.max_size (b ∷ bs) (ground arith) in
            (
              ok tt,
              ground (
                arith,
                quiet s.global_on_change_cb (with_value (b ∷ bs) us) written fresh,
                quiet us.on_change_cb (with_value (b ∷ bs) us) written fresh,
                get_elem?-modify_self s.settings p (with_value (b ∷ bs)) here,
                whole,
                same,
              ),
            )
      ]

  -- The callback, before user_settings_load is done.
  pub h_set-restored :
      (h : Handler) (key bs : Bytes) (s : State Subsys Heap)
      → s.is_loaded ≡ false
      → Distinct (keys s.settings)
      → (r : Status) × (h_set h (call_with key bs) s
          ≡ done (r, record s { settings = map (at_key key (restored h bs)) s.settings }))
  unfolding get_by_key
  h_set-restored h key bs s fresh d = elim (Option-cases (get_by_key key s.settings)) [
    | inl missing ↦ (
      err enoent,
      h_set_missing h key bs s missing
          ∙ ap (λ l. done (err enoent, record s { settings = l }))
              (sym (
                map-missing key (restored h bs) s.settings
                  (find_index-none (λ us. bytes_eq key us.key) s.settings missing))),
    )
    | inr (p, found) ↦
        let (us, here, same) = find_index-some (λ us. bytes_eq key us.key) s.settings found in
        let (r, run) = h_set_at h key bs p us s fresh found here in
        (
          r,
          run
              ∙ ap (λ l. done (r, record s { settings = l }))
                  (modify-map key (restored h bs) s.settings p d found),
        )
  ]
