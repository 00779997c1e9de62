-- ===== src/Settings/Changed.antt =====
-- The iterators and the changed flags: user_settings_iter_next, user_settings_iter_next_changed,
-- user_settings_any_changed and user_settings_clear_changed of
-- library/user_settings/user_settings.c.
use irnas_usersettings_lib.Base.{
  ℕ, zero, suc, ◌≤◌, ◌<◌, ◌≡◌, refl, ap, ◌∙◌, sym, Bool, true, false, Option, none, some, List, [],
  ◌∷◌, map, arith, length, drop, length-drop, drop_cons, not, lt_of_get_elem?, get_elem?_of_lt,
  Bytes, if◌then◌else◌, Outcome, done, fault, no_fuel, Bool-cases, inl, inr,
}
use irnas_usersettings_lib.Setting.{UserSetting}
use irnas_usersettings_lib.State.{State}
use irnas_usersettings_lib.SettingsList.{IterCtx, iter_start, iter_next}
use irnas_usersettings_lib.SettingsList.Iteration.{
  at, at_end, iter_next_lem, visit, KeepsList, for_each-visit,
}
use irnas_usersettings_lib.Settings.Iter.{
  key_and_id, next, next_changed, next_changed_loop, stop_at_changed, any_changed,
}

-- The settings whose flag is up, in order.
abbrev pub changed_only : List UserSetting → List UserSetting
changed_only [] = []
changed_only (us ∷ l) = if us.has_changed_recently then us ∷ changed_only l else changed_only l

-- A context whose next setting is the one at position `p`.
abbrev pub before : ℕ → IterCtx
before zero = iter_start
before (suc p) = at p

-- The next call returns the first of the settings that are left.
pub iter_next-before :
    (p : ℕ) (l : List UserSetting) {us : UserSetting} {rest : List UserSetting}
    → drop p l ≡ us ∷ rest
    → iter_next (before p) l ≡ (some p, before (suc p))
iter_next-before zero l e = (iter_next_lem l).1 (lt_of_get_elem? l 0 (drop_cons 0 l e).0)
iter_next-before (suc p) l e =
    (iter_next_lem l).2 p (lt_of_get_elem? l (suc p) (drop_cons (suc p) l e).0)

pub iter_next_done :
    (p : ℕ) (l : List UserSetting) → drop p l ≡ [] → iter_next (before p) l ≡ (none, at_end)
iter_next_done zero [] e = (iter_next_lem []).0 refl
iter_next_done zero (us ∷ l) e = cc
iter_next_done (suc p) l e = (iter_next_lem l).3 p (drop_nil (suc p) l e)
  where
    drop_nil : (n : ℕ) (l : List UserSetting) → drop n l ≡ [] → length l ≤ n
    drop_nil zero [] e = omega arith
    drop_nil zero (us ∷ l) e = cc
    drop_nil (suc n) [] e = omega arith
    drop_nil (suc n) (us ∷ l) e = omega (arith, drop_nil n l e)

-- A client's loop `while (user_settings_iter_next(&ctx, &key, &id))`, and the same with
-- user_settings_iter_next_changed; it collects what the calls return.
unfoldable pub collect :
    (IterCtx → List UserSetting → Outcome (Option (Bytes × ℕ) × IterCtx))
    → ℕ
    → IterCtx
    → List UserSetting
    → Outcome (List (Bytes × ℕ))
collect step zero ctx l = fault no_fuel
collect step (suc fuel) ctx l = elim (step ctx l) [
  | fault e ↦ fault e
  | done (none, ctx') ↦ done []
  | done (some ki, ctx') ↦ elim (collect step fuel ctx' l) [
    | done kis ↦ done (ki ∷ kis)
    | fault e ↦ fault e
  ]
]

collect-next :
    (rest l : List UserSetting) (p : ℕ)
    → drop p l ≡ rest
    → collect next (suc (length rest)) (before p) l ≡ done (map key_and_id rest)
unfolding collect next
collect-next [] l p e = ground (arith, iter_next_done p l e)
collect-next (us ∷ rest) l p e = ground (
  arith,
  iter_next-before p l e,
  drop_cons p l e,
  collect-next rest l (suc p) (drop_cons p l e).1,
)

-- From user_settings_iter_start, calling user_settings_iter_next until it returns false gives the
-- key and the ID of every setting, once and in the order of the list.
pub next_visits_all :
    (l : List UserSetting) → collect next (suc (length l)) iter_start l ≡ done (map key_and_id l)
next_visits_all l = collect-next l l 0 refl

-- What one call of user_settings_iter_next_changed returns, by the settings that are left.
abbrev first_changed : List UserSetting → ℕ → Outcome (Option (Bytes × ℕ) × IterCtx)
first_changed [] p = done (none, at_end)
first_changed (us ∷ rest) p =
    if us.has_changed_recently
    then done (some (key_and_id us), before (suc p))
    else first_changed rest (suc p)

next_changed_loop_lem :
    (rest l : List UserSetting) (p fuel : ℕ)
    → length rest < fuel
    → drop p l ≡ rest
    → next_changed_loop fuel (before p) l ≡ first_changed rest p
unfolding next_changed_loop
next_changed_loop_lem rest l p zero lt e = elim lt [ ]
next_changed_loop_lem [] l p (suc fuel) lt e = ground (arith, iter_next_done p l e)
next_changed_loop_lem (us ∷ rest) l p (suc fuel) lt e = ground (
  arith,
  iter_next-before p l e,
  drop_cons p l e,
  next_changed_loop_lem rest l (suc p) fuel (omega arith) (drop_cons p l e).1,
)

length-drop_le : (n : ℕ) (l : List UserSetting) → length (drop n l) ≤ length l
length-drop_le n l = omega (arith, length-drop n l)

next_changed_lem :
    (rest l : List UserSetting) (p : ℕ)
    → drop p l ≡ rest
    → next_changed (before p) l ≡ first_changed rest p
unfolding next_changed
next_changed_lem rest l p e =
    next_changed_loop_lem rest l p (suc (length l)) (omega (arith, length-drop_le p l, ap length e))
      e

collect-next_changed :
    (rest l : List UserSetting) (p fuel : ℕ)
    → length rest < fuel
    → drop p l ≡ rest
    → collect next_changed fuel (before p) l ≡ done (map key_and_id (changed_only rest))
unfolding collect
collect-next_changed rest l p zero lt e = elim lt [ ]
collect-next_changed [] l p (suc fuel) lt e = ground (arith, next_changed_lem [] l p e)
collect-next_changed (us ∷ rest) l p (suc fuel) lt e = elim (Bool-cases us.has_changed_recently) [
  | inl up ↦ ground (
    arith,
    next_changed_lem (us ∷ rest) l p e,
    collect-next_changed rest l (suc p) fuel (omega arith) (drop_cons p l e).1,
  )
  | inr down ↦ ground (
    arith,
    next_changed_lem (us ∷ rest) l p e,
    next_changed_lem rest l (suc p) (drop_cons p l e).1,
    collect-next_changed rest l (suc p) (suc fuel) (omega arith) (drop_cons p l e).1,
  )
]

-- From user_settings_iter_start, calling user_settings_iter_next_changed until it returns false
-- gives the key and the ID of exactly the settings whose changed flag is up, once and in the order
-- of the list.
pub next_changed_visits_changed :
    (l : List UserSetting)
    → collect next_changed (suc (length l)) iter_start l ≡ done (map key_and_id (changed_only l))
next_changed_visits_changed l = collect-next_changed l l 0 (suc (length l)) (omega arith) refl

abbrev pub is_empty : List UserSetting → Bool
is_empty [] = true
is_empty (us ∷ l) = false

module _ {Subsys Heap : Type 0} where
  stop_at_changed-KeepsList :
      (s : State Subsys Heap) → KeepsList stop_at_changed (λ (t : State Subsys Heap). t ≡ s)
  unfolding stop_at_changed
  stop_at_changed-KeepsList s p t r t' lt i run =
      let (us, here) = get_elem?_of_lt t.settings p lt in
      let same : t ≡ t' = ground arith in (sym same ∙ i, ap (λ u. length u.settings) (sym same))

  visit_changed :
      (rest : List UserSetting) (p : ℕ) (s : State Subsys Heap)
      → drop p s.settings ≡ rest
      → visit stop_at_changed (length rest) p s
        ≡ done (if is_empty (changed_only rest) then none else some true, s)
  unfolding visit stop_at_changed
  visit_changed [] p s e = refl
  visit_changed (us ∷ rest) p s e =
      ground
        (arith, drop_cons p s.settings e, visit_changed rest (suc p) s (drop_cons p s.settings e).1)

  -- user_settings_any_changed returns true exactly when some setting's changed flag is up, and
  -- changes nothing.
  pub any_changed_lem :
      (s : State Subsys Heap) → any_changed s ≡ done (not (is_empty (changed_only s.settings)), s)
  unfolding any_changed
  any_changed_lem s = ground (
    arith,
    for_each-visit stop_at_changed (λ t. t ≡ s) (stop_at_changed-KeepsList s) s refl,
    visit_changed s.settings 0 s refl,
  )
