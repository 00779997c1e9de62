-- ===== src/SettingsList/Iteration.antt =====
-- What the iteration of library/user_settings/user_settings_list.c visits.
use irnas_usersettings_lib.Base.{
  ℕ, zero, suc, ◌+◌, ◌≤◌, ◌<◌, ◌≡◌, ◌∙◌, refl, false, Option, none, some, List, [], ◌∷◌, arith,
  length, M, done, ◌>>=◌, pure, bind_cong,
}
use irnas_usersettings_lib.Setting.{UserSetting}
use irnas_usersettings_lib.State.{State}
use irnas_usersettings_lib.SettingsList.{
  IterCtx, iter_start, iter_next, iterate, for_each, unless_returned,
}

-- The context after the setting at a position was returned.
abbrev pub at : ℕ → IterCtx
at p = record { iter_list_node = some p; iter_start = false }

-- The context after the end.
abbrev pub at_end : IterCtx
at_end = record { iter_list_node = none; iter_start = false }

-- Iteration starts at the first setting, goes on to the next one, returns NULL after the last, and
-- NULL ever after.
pub iter_next_lem :
    (l : List UserSetting)
    → (l ≡ [] → iter_next iter_start l ≡ (none, at_end))
      × (0 < length l → iter_next iter_start l ≡ (some 0, at 0))
      × ((p : ℕ) → suc p < length l → iter_next (at p) l ≡ (some (suc p), at (suc p)))
      × ((p : ℕ) → length l ≤ suc p → iter_next (at p) l ≡ (none, at_end))
      × (iter_next at_end l ≡ (none, at_end))
unfolding iter_next
iter_next_lem l = (ground arith, starts l, λ p h. ground arith, λ p h. ground arith, ground arith)
  where
    starts : (l : List UserSetting) → 0 < length l → iter_next iter_start l ≡ (some 0, at 0)
    starts [] h = elim h [ ]
    starts (us ∷ l) h = refl

nil_of_length : (l : List UserSetting) → length l ≡ 0 → l ≡ []
nil_of_length [] e = refl
nil_of_length (us ∷ l) e = absurd (omega arith)

module _ {Subsys Heap A : Type 0} (body : ℕ → M (State Subsys Heap) (Option A)) where
  -- The body at `n` positions from `p` on, up to the first that returns.
  unfoldable pub visit : ℕ → ℕ → M (State Subsys Heap) (Option A)
  visit zero p = pure none
  visit (suc n) p = body p >>= λ r. unless_returned r (visit n (suc p))

module _ {Subsys Heap A : Type 0} (body : ℕ → M (State Subsys Heap) (Option A))
    (Inv : State Subsys Heap → Type 0) where
  -- At a setting of the list, and under an invariant, the body adds and removes no settings and
  -- keeps the invariant.
  abbrev pub KeepsList : Type 0
  KeepsList =
      (p : ℕ) (s : State Subsys Heap) (r : Option A) (s' : State Subsys Heap)
      → p < length s.settings
      → Inv s
      → body p s ≡ done (r, s')
      → Inv s' × (length s'.settings ≡ length s.settings)

  rest_cong :
      (r : Option A) (s : State Subsys Heap) (m n : M (State Subsys Heap) (Option A))
      → m s ≡ n s
      → unless_returned r m s ≡ unless_returned r n s
  rest_cong none s m n h = h
  rest_cong (some a) s m n h = refl

  round_end :
      (fuel : ℕ) (ctx : IterCtx) (s : State Subsys Heap) {ctx' : IterCtx}
      → iter_next ctx s.settings ≡ (none, ctx')
      → iterate (suc fuel) ctx body s ≡ done (none, s)
  unfolding iterate
  round_end fuel ctx s e = rw (e, iterate)

  round :
      (fuel p : ℕ) (ctx ctx' : IterCtx) (s : State Subsys Heap)
      → iter_next ctx s.settings ≡ (some p, ctx')
      → iterate (suc fuel) ctx body s
        ≡ (body p >>= λ r. unless_returned r (iterate fuel ctx' body)) s
  unfolding iterate
  round fuel p ctx ctx' s e = rw (e, iterate) (rw e)

  iterate_from :
      KeepsList
      → (n p : ℕ) (s : State Subsys Heap) → Inv s
      → length s.settings ≡ suc p + n
      → iterate (suc n) (at p) body s ≡ visit body n (suc p) s
  unfolding visit
  iterate_from keeps zero p s i e =
      round_end zero (at p) s ((iter_next_lem s.settings).3 p (omega arith))
  iterate_from keeps (suc n) p s i e =
      round (suc n) (suc p) (at p) (at (suc p)) s ((iter_next_lem s.settings).2 p (omega arith))
      ∙ bind_cong (body (suc p)) s _ _ λ r s' run.
        let k = keeps (suc p) s r s' (omega arith) i run in
        rest_cong r s' _ _ (iterate_from keeps n (suc p) s' k.0 (omega (arith, k.1)))

  iterate_start :
      KeepsList
      → (n : ℕ) (s : State Subsys Heap) → Inv s
      → length s.settings ≡ n
      → iterate (suc n) iter_start body s ≡ visit body n 0 s
  unfolding visit
  iterate_start keeps zero s i e =
      round_end zero iter_start s ((iter_next_lem s.settings).0 (nil_of_length s.settings e))
  iterate_start keeps (suc n) s i e =
      round (suc n) 0 iter_start (at 0) s ((iter_next_lem s.settings).1 (omega arith))
      ∙ bind_cong (body 0) s _ _ λ r s' run.
        let k = keeps 0 s r s' (omega arith) i run in
        rest_cong r s' _ _ (iterate_from keeps n 0 s' k.0 (omega (arith, k.1)))

  -- A loop over the list, with a round for each setting and one for the end, runs its body once at
  -- each position in order, up to the first round that returns, and never runs out of rounds,
  -- provided that under an invariant the body adds and removes no settings.
  pub for_each-visit :
      KeepsList
      → (s : State Subsys Heap) → Inv s
      → for_each body s ≡ visit body (length s.settings) 0 s
  unfolding for_each
  for_each-visit keeps s i = iterate_start keeps (length s.settings) s i refl
