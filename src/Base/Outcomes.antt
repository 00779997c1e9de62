-- ===== src/Base/Outcomes.antt =====
-- How a C function ends: it returns a value in a new state, or it stops at a fault. Error numbers
-- are ordinary return values.
use mathlib.Core.Path.{◌≡◌, refl, ap}
use mathlib.Core.Logic.{◌⊎◌, inl, inr}
use mathlib.Core.Bool.{Bool, true, false}
use mathlib.Core.Option.{Option, none, some}
use Prim.Native.Nat.{ℕ}

-- The error numbers that the library returns, negated; `other` is any that Zephyr returns.
pub data Errno : Type 0 where
  eio enoent einval enomem ealready eproto enotsup enoexec enotconn : Errno
  other : ℕ → Errno

-- An `int` that is negative on failure.
pub data Result {ℓ} (A : Type ℓ) : Type ℓ where
  ok : A → Result A
  err : Errno → Result A

-- 0 or a negative error number.
abbrev pub Status : Type 0
Status = Result (Unit {0})

-- A failed `__ASSERT`, a read through a dangling pointer, an access outside an array, and a loop
-- that was given too few rounds.
pub data Fault : Type 0 where
  assertion bad_pointer out_of_bounds no_fuel : Fault

pub data Outcome {ℓ} (A : Type ℓ) : Type ℓ where
  done : A → Outcome A
  fault : Fault → Outcome A

-- Code that changes a state and may stop at a fault.
abbrev pub M : Type 0 → Type 0 → Type 0
M S A = S → Outcome (A × S)

module _ {S A B : Type 0} where
  infixl 5 ◌>>=◌ ◌>>◌
  abbrev pub ◌>>=◌ : M S A → (A → M S B) → M S B
  ◌>>=◌ m f s = elim (m s) [ done (a, s') ↦ f a s' | fault e ↦ fault e ]

  abbrev pub ◌>>◌ : M S A → M S B → M S B
  m >> n = m >>= λ _. n

module _ {S : Type 0} where
  abbrev pub pure : {A : Type 0} → A → M S A
  pure a s = done (a, s)

  abbrev pub stop : {A : Type 0} → Fault → M S A
  stop e s = fault e

  abbrev pub gets : {A : Type 0} → (S → A) → M S A
  gets f s = done (f s, s)

  abbrev pub update : (S → S) → M S (Unit {0})
  update f s = done (tt, f s)

  -- __ASSERT(test, ...)
  abbrev pub assert : Bool → M S (Unit {0})
  assert true s = done (tt, s)
  assert false s = fault assertion

  -- __ASSERT(pointer, ...)
  abbrev pub assert_some : {A : Type 0} → Option A → M S A
  assert_some none s = fault assertion
  assert_some (some a) s = done (a, s)

module _ {S A B : Type 0} where
  bind_outcome :
      (o : Outcome (A × S)) (j k : A → M S B)
      → ((a : A) (s' : S) → o ≡ done (a, s') → j a s' ≡ k a s')
      → elim o as (λ _. Outcome (B × S)) [ done (a, s') ↦ j a s' | fault e ↦ fault e ]
        ≡ elim o as (λ _. Outcome (B × S)) [ done (a, s') ↦ k a s' | fault e ↦ fault e ]
  bind_outcome (done (a, s')) j k h = h a s' refl
  bind_outcome (fault e) j k h = refl

  -- Two continuations that agree on what the first part returns.
  pub bind_cong :
      (m : M S A) (s : S) (j k : A → M S B)
      → ((a : A) (s' : S) → m s ≡ done (a, s') → j a s' ≡ k a s')
      → (m >>= j) s ≡ (m >>= k) s
  bind_cong m s j k h = bind_outcome (m s) j k h

  -- What follows a part that returns.
  pub bind_done :
      (m : M S A) (s : S) (k : A → M S B) {a : A} {s' : S}
      → m s ≡ done (a, s')
      → (m >>= k) s ≡ k a s'
  bind_done m s k e =
      ap (λ o. elim o as (λ _. Outcome (B × S)) [ done (a, s') ↦ k a s' | fault e ↦ fault e ]) e

  pub bind_fault :
      (m : M S A) (s : S) (k : A → M S B) {e : Fault} → m s ≡ fault e → (m >>= k) s ≡ fault e
  bind_fault m s k e =
      ap (λ o. elim o as (λ _. Outcome (B × S)) [ done (a, s') ↦ k a s' | fault e ↦ fault e ]) e

module _ {S A B C : Type 0} (f : A → M S B) (g : B → M S C) where
  assoc_outcome :
      (o : Outcome (A × S))
      → elim (elim o as (λ _. Outcome (B × S)) [ done (a, s') ↦ f a s' | fault e ↦ fault e ])
          as (λ _. Outcome (C × S)) [ done (b, s') ↦ g b s' | fault e ↦ fault e ]
        ≡ elim o as (λ _. Outcome (C × S)) [ done (a, s') ↦ (f a >>= g) s' | fault e ↦ fault e ]
  assoc_outcome (done (a, s')) = refl
  assoc_outcome (fault e) = refl

  pub bind_assoc : (m : M S A) (s : S) → ((m >>= f) >>= g) s ≡ (m >>= λ a. f a >>= g) s
  bind_assoc m s = assoc_outcome (m s)

pub Result-cases : (r : Status) → (r ≡ ok tt) ⊎ ((e : Errno) × (r ≡ err e))
Result-cases (ok t) = inl refl
Result-cases (err e) = inr (e, refl)
