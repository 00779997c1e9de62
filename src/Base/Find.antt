-- ===== src/Base/Find.antt =====
-- Laws of `find_index`, and of positions in a list that has grown at its end.
use Prim.Native.Nat.{ℕ, zero, suc, ◌<◌}
use mathlib.Core.Path.{◌≡◌, refl}
use mathlib.Core.Logic.{◌≢◌, inl, inr}
use mathlib.Core.Bool.{Bool, true, false}
use mathlib.Core.List.{List, [], ◌∷◌, ◌++◌, map}
use mathlib.Core.Option.{none, some}
use native.Mathlib.Omega.{arith}
use irnas_usersettings_lib.Base.Tests.{Bool-cases, Option-cases}
use irnas_usersettings_lib.Base.Lists.{
  length, get_elem?, All, Distinct, find_index, All-get, get_elem?-map,
}

module _ {ℓ} {A : Type ℓ} (t : A → Bool) where
  -- A hit is an entry that passes the test.
  pub find_index-some :
      (l : List A) {p : ℕ}
      → find_index t l ≡ some p
      → (a : A) × (get_elem? l p ≡ some a) × (t a ≡ true)
  find_index-some [] h = cc
  find_index-some (x ∷ xs) {p} h = elim (Bool-cases (t x)) [
    | inl hit ↦ (x, ground arith, hit)
    | inr miss ↦ elim (Option-cases (find_index t xs)) [
      | inl e ↦ ground arith
      | inr (q, e) ↦ let (a, at, pass) = find_index-some xs e in (a, ground arith, pass)
    ]
  ]

  -- A miss means that no entry passes.
  pub find_index-none : (l : List A) → find_index t l ≡ none → All (λ a. t a ≡ false) l
  find_index-none [] h = tt
  find_index-none (x ∷ xs) h = elim (Bool-cases (t x)) [
    | inl hit ↦ ground arith
    | inr miss ↦ elim (Option-cases (find_index t xs)) [
      | inl e ↦ (miss, find_index-none xs e)
      | inr (q, e) ↦ ground arith
    ]
  ]

  pub none-find_index : (l : List A) → All (λ a. t a ≡ false) l → find_index t l ≡ none
  none-find_index [] h = refl
  none-find_index (x ∷ xs) h = rw (h.0, none-find_index xs h.1)

  pub find_index-append :
      (l : List A) (a : A)
      → find_index t l ≡ none
      → t a ≡ true
      → find_index t (l ++ a ∷ []) ≡ some (length l)
  find_index-append [] a h e = rw e
  find_index-append (x ∷ xs) a h e = elim (Option-cases (find_index t xs)) [
    | inl n ↦ ground (arith, find_index-append xs a n e)
    | inr (q, n) ↦ ground arith
  ]

-- Only the tested field counts.
pub find_index-map {ℓ κ} :
    {A : Type ℓ} {B : Type κ} (t : B → Bool) (g : A → B) (l : List A)
    → find_index (λ a. t (g a)) l ≡ find_index t (map g l)
find_index-map t g [] = refl
find_index-map t g (x ∷ xs) = rw (find_index-map t g xs)

module _ {ℓ} {A : Type ℓ} where
  pub get_elem?-append_left :
      (xs ys : List A) (p : ℕ) → p < length xs → get_elem? (xs ++ ys) p ≡ get_elem? xs p
  get_elem?-append_left [] ys p h = elim h [ ]
  get_elem?-append_left (x ∷ xs) ys zero h = refl
  get_elem?-append_left (x ∷ xs) ys (suc p) h = get_elem?-append_left xs ys p (omega arith)

  pub get_elem?-append_self : (xs : List A) (a : A) → get_elem? (xs ++ a ∷ []) (length xs) ≡ some a
  get_elem?-append_self [] a = refl
  get_elem?-append_self (x ∷ xs) a = get_elem?-append_self xs a

  pub lt_of_get_elem? : (xs : List A) (p : ℕ) {a : A} → get_elem? xs p ≡ some a → p < length xs
  lt_of_get_elem? [] p h = cc
  lt_of_get_elem? (x ∷ xs) zero h = omega arith
  lt_of_get_elem? (x ∷ xs) (suc p) h = omega (arith, lt_of_get_elem? xs p h)

  pub get_elem?_of_lt : (xs : List A) (p : ℕ) → p < length xs → (a : A) × (get_elem? xs p ≡ some a)
  get_elem?_of_lt [] p h = elim h [ ]
  get_elem?_of_lt (x ∷ xs) zero h = (x, refl)
  get_elem?_of_lt (x ∷ xs) (suc p) h = get_elem?_of_lt xs p (omega arith)

  -- Among entries with distinct fields a test for one field finds its entry.
  pub find_index_self {κ} :
      {B : Type κ} (test : B → B → Bool) (g : A → B)
      → ((a : B) → test a a ≡ true)
      → ((a b : B) → a ≢ b → test b a ≡ false)
      → (l : List A) (p : ℕ) {a : A} → Distinct (map g l)
      → get_elem? l p ≡ some a
      → find_index (λ x. test (g a) (g x)) l ≡ some p
  find_index_self test g same differ [] p d h = cc
  find_index_self test g same differ (x ∷ xs) zero {a} d h =
      let e : x ≡ a = cc in rw (← e, same (g x))
  find_index_self test g same differ (x ∷ xs) (suc p) {a} d h = rw (
    differ (g x) (g a) (All-get _ (map g xs) p d.0 (get_elem?-map g xs p h)),
    find_index_self test g same differ xs p d.1 h,
  )

-- A predicate of an entry as one of its field.
pub All-map {ℓ κ μ ν} :
    {A : Type ℓ} {B : Type κ} (P : A → Type μ) (Q : B → Type ν) (g : A → B)
    → ((a : A) → P a → Q (g a))
    → (l : List A) → All P l
    → All Q (map g l)
All-map P Q g f [] h = tt
All-map P Q g f (x ∷ xs) h = (f x h.0, All-map P Q g f xs h.1)
