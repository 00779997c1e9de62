-- ===== src/TestStorage.antt =====
-- Test data: a settings subsystem that keeps a log of what was saved, and what
-- settings_load_subtree delivers from it.
use irnas_usersettings_lib.Base.{
  ◌≤◌, ◌≡◌, ◌≢◌, refl, ap, ◌∙◌, subst, arith, false, Option, none, some, List, [], ◌∷◌, ◌++◌, map,
  length, length-take-le, All, Distinct, Bytes, bytes_eq, bytes_eq_refl, bytes_eq-true, ◌==◌,
  if◌then◌else◌, Status, ok, Bool-cases, Option-cases, inl, inr,
}
use irnas_usersettings_lib.Platform.{
  Handler, default_sh, value_sh, changed_sh, HandlerCall, full_name, prefix, saved, IsBounded,
}
use irnas_usersettings_lib.Settings.Saving.{call_with}
use irnas_usersettings_lib.Settings.Loading.{pair_lookup}

-- The pairs that were saved, the newest first.
abbrev pub Log : Type 0
Log = List (Bytes × Bytes)

abbrev pub strip : Bytes → Bytes → Option Bytes
strip [] bs = some bs
strip (x ∷ xs) [] = none
strip (x ∷ xs) (b ∷ bs) = if x == b then strip xs bs else none

abbrev pub lookup : Bytes → Log → Option Bytes
lookup name [] = none
lookup name ((other, bs) ∷ log) = if bytes_eq other name then saved bs else lookup name log

abbrev remove : Bytes → List (Bytes × Bytes) → List (Bytes × Bytes)
remove key [] = []
remove key ((k, bs) ∷ pairs) =
    if bytes_eq key k then remove key pairs else (k, bs) ∷ remove key pairs

abbrev put_pair : Bytes → Bytes → List (Bytes × Bytes) → List (Bytes × Bytes)
put_pair key [] pairs = remove key pairs
put_pair key (b ∷ bs) pairs = (key, b ∷ bs) ∷ remove key pairs

abbrev put_opt : Option Bytes → Bytes → List (Bytes × Bytes) → List (Bytes × Bytes)
put_opt none bs pairs = pairs
put_opt (some key) bs pairs = put_pair key bs pairs

-- The newest value of each name of a subtree.
abbrev pub pairs_under : Handler → Log → List (Bytes × Bytes)
pairs_under h [] = []
pairs_under h ((name, bs) ∷ log) = put_opt (strip (full_name h []) name) bs (pairs_under h log)

abbrev pub calls_of : Handler → Log → List (Handler × HandlerCall)
calls_of h log = map (λ p. (h, call_with p.0 p.1)) (pairs_under h log)

abbrev pub load_subtree_of : Bytes → Log → List (Handler × HandlerCall) × Status
load_subtree_of name log =
    if bytes_eq name (prefix default_sh)
    then (calls_of default_sh log, ok tt)
    else if bytes_eq name (prefix value_sh)
    then (calls_of value_sh log, ok tt)
    else if bytes_eq name (prefix changed_sh)
    then (calls_of changed_sh log, ok tt)
    else ([], ok tt)

pub load_subtree_of-prefix :
    (h : Handler) (log : Log) → load_subtree_of (prefix h) log ≡ (calls_of h log, ok tt)
unfolding bytes_eq
load_subtree_of-prefix default_sh log = refl
load_subtree_of-prefix value_sh log = refl
load_subtree_of-prefix changed_sh log = refl

calls-IsBounded :
    (h : Handler) (pairs : List (Bytes × Bytes))
    → All IsBounded (map (λ p. (h, call_with p.0 p.1)) pairs)
calls-IsBounded h [] = tt
calls-IsBounded h ((key, bs) ∷ pairs) = (
  λ size got_bs e. subst (λ l. length l ≤ size) (cc) (length-take-le size bs),
  calls-IsBounded h pairs,
)

pub load_subtree_of-IsBounded :
    (name : Bytes) (log : Log) → All IsBounded (load_subtree_of name log).0
load_subtree_of-IsBounded name log =
    let bounded = λ (h : Handler). calls-IsBounded h (pairs_under h log) in
    elim (Bool-cases (bytes_eq name (prefix default_sh))) [
      | inl is_default ↦ rw is_default (bounded default_sh)
      | inr not_default ↦ elim (Bool-cases (bytes_eq name (prefix value_sh))) [
        | inl is_value ↦ rw (not_default, is_value) (bounded value_sh)
        | inr not_value ↦ elim (Bool-cases (bytes_eq name (prefix changed_sh))) [
          | inl is_changed ↦ rw (not_default, not_value, is_changed) (bounded changed_sh)
          | inr not_changed ↦ rw (not_default, not_value, not_changed) tt
        ]
      ]
    ]

remove-others :
    (key k : Bytes) (pairs : List (Bytes × Bytes))
    → All (λ j. k ≢ j) (map (λ p. p.0) pairs)
    → All (λ j. k ≢ j) (map (λ p. p.0) (remove key pairs))
remove-others key k [] h = tt
remove-others key k ((j, bs) ∷ pairs) h = elim (Bool-cases (bytes_eq key j)) [
  | inl same ↦ rw same (remove-others key k pairs h.1)
  | inr other ↦ rw other (h.0, remove-others key k pairs h.1)
]

remove-Distinct :
    (key : Bytes) (pairs : List (Bytes × Bytes))
    → Distinct (map (λ p. p.0) pairs)
    → Distinct (map (λ p. p.0) (remove key pairs))
remove-Distinct key [] d = tt
remove-Distinct key ((j, bs) ∷ pairs) d = elim (Bool-cases (bytes_eq key j)) [
  | inl same ↦ rw same (remove-Distinct key pairs d.1)
  | inr other ↦ rw other (remove-others key j pairs d.0, remove-Distinct key pairs d.1)
]

removed :
    (key : Bytes) (pairs : List (Bytes × Bytes))
    → All (λ j. key ≢ j) (map (λ p. p.0) (remove key pairs))
removed key [] = tt
removed key ((j, bs) ∷ pairs) = elim (Bool-cases (bytes_eq key j)) [
  | inl same ↦ rw same (removed key pairs)
  | inr other ↦ rw other ((λ e. ground (arith, bytes_eq_refl j)), removed key pairs)
]

put_opt-Distinct :
    (o : Option Bytes) (bs : Bytes) (pairs : List (Bytes × Bytes))
    → Distinct (map (λ p. p.0) pairs)
    → Distinct (map (λ p. p.0) (put_opt o bs pairs))
put_opt-Distinct none bs pairs d = d
put_opt-Distinct (some key) [] pairs d = remove-Distinct key pairs d
put_opt-Distinct (some key) (b ∷ bs) pairs d = (removed key pairs, remove-Distinct key pairs d)

pub pairs_under-Distinct : (h : Handler) (log : Log) → Distinct (map (λ p. p.0) (pairs_under h log))
pairs_under-Distinct h [] = tt
pairs_under-Distinct h ((name, bs) ∷ log) = put_opt-Distinct _ bs _ (pairs_under-Distinct h log)

-- Looking a key up after a removal.
lookup-remove :
    (key k : Bytes) (pairs : List (Bytes × Bytes))
    → pair_lookup k (remove key pairs) ≡ (if bytes_eq key k then none else pair_lookup k pairs)
lookup-remove key k [] = ground arith
lookup-remove key k ((j, bs) ∷ pairs) =
    ground
      (arith, lookup-remove key k pairs, bytes_eq-true key j, bytes_eq-true j k, bytes_eq_refl j)

lookup-put_pair :
    (key k bs : Bytes) (pairs : List (Bytes × Bytes))
    → pair_lookup k (put_pair key bs pairs)
      ≡ (if bytes_eq key k then saved bs else pair_lookup k pairs)
lookup-put_pair key k [] pairs = lookup-remove key k pairs
lookup-put_pair key k (b ∷ bs) pairs = ground (arith, lookup-remove key k pairs)

strip-some : (pre name : Bytes) {key : Bytes} → strip pre name ≡ some key → name ≡ pre ++ key
strip-some [] name e = cc
strip-some (x ∷ xs) [] e = cc
strip-some (x ∷ xs) (y ∷ ys) {key} e = elim (Bool-cases (x == y)) [
  | inl same ↦
      let rest : strip xs ys ≡ some key = ground arith in
      let first : x ≡ y = ground arith in cc (strip-some xs ys rest)
  | inr other ↦ ground arith
]

strip-none : (pre name key : Bytes) → strip pre name ≡ none → bytes_eq name (pre ++ key) ≡ false
unfolding bytes_eq
strip-none [] name key e = cc
strip-none (x ∷ xs) [] key e = refl
strip-none (x ∷ xs) (y ∷ ys) key e = ground (arith, strip-none xs ys key)

bytes_eq-prefix : (pre a b : Bytes) → bytes_eq (pre ++ a) (pre ++ b) ≡ bytes_eq a b
unfolding bytes_eq
bytes_eq-prefix [] a b = refl
bytes_eq-prefix (x ∷ pre) a b = ground (arith, bytes_eq-prefix pre a b)

full_name_split : (h : Handler) (key : Bytes) → full_name h key ≡ full_name h [] ++ key
full_name_split default_sh key = refl
full_name_split value_sh key = refl
full_name_split changed_sh key = refl

pub pairs_under-lookup :
    (h : Handler) (key : Bytes) (log : Log)
    → pair_lookup key (pairs_under h log) ≡ lookup (full_name h key) log
pairs_under-lookup h key [] = refl
pairs_under-lookup h key ((name, bs) ∷ log) = elim (Option-cases (strip (full_name h []) name)) [
  | inl outside ↦
      let miss : bytes_eq name (full_name h key) ≡ false =
        ap (bytes_eq name) (full_name_split h key) ∙ strip-none (full_name h []) name key outside in
      rw (outside, miss) (pairs_under-lookup h key log)
  | inr (k, inside) ↦
      let same : bytes_eq name (full_name h key) ≡ bytes_eq k key =
        ap (λ n. bytes_eq n (full_name h key)) (strip-some (full_name h []) name inside)
        ∙ ap (bytes_eq (full_name h [] ++ k)) (full_name_split h key)
        ∙ bytes_eq-prefix (full_name h []) k key in
      rw (inside, same)
        (lookup-put_pair k key bs (pairs_under h log)
          ∙ ap (λ o. if bytes_eq k key then saved bs else o) (pairs_under-lookup h key log))
]
