-- ===== src/Settings/Abstract/Entries.antt =====
-- What the writes of library/user_settings/user_settings.c do to the entry of a setting.
use irnas_usersettings_lib.Base.{
  ℕ, zero, suc, ◌≤◌, ◌≡◌, refl, ap, ◌∙◌, sym, arith, Bool, true, false, Option, none, some, List,
  [], ◌∷◌, map, length, take, take-append, modify, get_elem?, Bytes, bytes_eq, bytes_eq-false, ◌≢◌,
  length-take, ◌&&◌, drop, ◌==◌, Bool-cases, inl, inr,
}
use irnas_usersettings_lib.Setting.{UserSetting, IsSound, ValidateCb}
use irnas_usersettings_lib.Settings.Handlers.{with_value, with_default, with_changed_flag}
use irnas_usersettings_lib.Settings.Change.{validated}
use irnas_usersettings_lib.Settings.Values.{same_value}
use irnas_usersettings_lib.Settings.Loops.{same_default}
use irnas_usersettings_lib.Settings.Abstract.{entry, accepted_by, in_use, is_value, is_some}

-- A write at a position, seen as entries.
pub map-modify_at {ℓ κ} :
    {A : Type ℓ} {B : Type κ} (e : A → B) (f : A → A) (g : B → B) (l : List A) (p : ℕ) {a : A}
    → get_elem? l p ≡ some a
    → e (f a) ≡ g (e a)
    → map e (modify l p f) ≡ modify (map e l) p g
map-modify_at e f g [] p here h = refl
map-modify_at e f g (x ∷ l) zero {a} here h =
    let same : x ≡ a = cc in
    ap (λ b. b ∷ map e l) (ap (λ y. e (f y)) same ∙ h ∙ ap (λ y. g (e y)) (sym same))
map-modify_at e f g (x ∷ l) (suc p) here h = ap (◌∷◌ (e x)) (map-modify_at e f g l p here h)

pub modify-modify {ℓ} :
    {A : Type ℓ} (l : List A) (p : ℕ) (f g : A → A)
    → modify (modify l p f) p g ≡ modify l p (λ a. g (f a))
modify-modify [] p f g = refl
modify-modify (x ∷ l) zero f g = refl
modify-modify (x ∷ l) (suc p) f g = ap (◌∷◌ x) (modify-modify l p f g)

-- A write that changes nothing.
pub modify_kept {ℓ} :
    {A : Type ℓ} (l : List A) (p : ℕ) (g : A → A) {a : A}
    → get_elem? l p ≡ some a
    → g a ≡ a
    → modify l p g ≡ l
modify_kept [] p g here h = refl
modify_kept (x ∷ l) zero g {a} here h =
    let same : x ≡ a = cc in ap (λ y. y ∷ l) (ap g same ∙ h ∙ sym same)
modify_kept (x ∷ l) (suc p) g here h = ap (◌∷◌ x) (modify_kept l p g here h)

bytes_eq_comm : (xs ys : Bytes) → bytes_eq xs ys ≡ bytes_eq ys xs
unfolding bytes_eq
bytes_eq_comm [] [] = refl
bytes_eq_comm [] (y ∷ ys) = refl
bytes_eq_comm (x ∷ xs) [] = refl
bytes_eq_comm (x ∷ xs) (y ∷ ys) = ground (arith, bytes_eq_comm xs ys)

-- The bytes in use are the given ones only if there are as many.
bytes_eq-length : (xs ys : Bytes) → length xs ≢ length ys → bytes_eq xs ys ≡ false
bytes_eq-length xs ys h = bytes_eq-false xs ys (λ e. h (ap length e))

module _ (len : ℕ) (block : Bytes) (fits : len ≤ length block) (bs : Bytes) where
  value_test :
      bytes_eq (take len block) bs ≡ (bytes_eq (take (length bs) block) bs && length bs == len)
  value_test = elim (Bool-cases (length bs == len)) [
    | inl same ↦ let e : length bs ≡ len = ground arith in rw (same, e) (ground arith)
    | inr other ↦
        let ne : length (take len block) ≢ length bs =
          λ e. ground (arith, length-take len block fits) in
        bytes_eq-length (take len block) bs ne ∙ ground arith
  ]

  default_test : bytes_eq (take len block) bs ≡ (length bs == len && bytes_eq bs (take len block))
  default_test = elim (Bool-cases (length bs == len)) [
    | inl same ↦ bytes_eq_comm (take len block) bs ∙ ground arith
    | inr other ↦
        let ne : length (take len block) ≢ length bs =
          λ e. ground (arith, length-take len block fits) in
        bytes_eq-length (take len block) bs ne ∙ ground arith
  ]

module _ (us : UserSetting) (sound : IsSound us) (b : ℕ) (bs : Bytes) where
  -- The tests of the code are those of the entry.
  pub is_value-same_value : is_value (entry us).value (b ∷ bs) ≡ same_value us (b ∷ bs)
  unfolding entry
  is_value-same_value = elim (Bool-cases us.is_set) [
    | inl set ↦
        rw set (value_test us.value_len us.value (omega (arith, sound.fits, sound.block)) (b ∷ bs))
    | inr unset ↦ let empty = sound.unset_is_empty unset in rw unset (ground arith)
  ]

  pub is_value-same_default : is_value (entry us).default (b ∷ bs) ≡ same_default us (b ∷ bs)
  unfolding entry
  is_value-same_default = elim (Bool-cases us.default_is_set) [
    | inl set ↦ rw set (
        default_test us.default_value_len us.default_value
          (omega (arith, sound.default_fits, sound.default_block)) (b ∷ bs))
    | inr unset ↦ let empty = sound.no_default_is_empty unset in rw unset (ground arith)
  ]

module _ (us : UserSetting) (bs : Bytes) where
  pub accepts-validated : (entry us).accepts bs ≡ validated us.validate_cb us bs
  unfolding entry
  accepts-validated = by_cb us.validate_cb
    where
      by_cb : (cb : Option ValidateCb) → accepted_by cb us.id us.key bs ≡ validated cb us bs
      by_cb none = refl
      by_cb (some validate) = refl

  pub entry-with_value :
      entry (with_changed_flag true (with_value bs us))
      ≡ record (entry us) { value = some bs; has_changed = true }
  unfolding entry
  entry-with_value = rw (take-append bs (drop (length bs) us.value)) refl

  pub entry-with_default : entry (with_default bs us) ≡ record (entry us) { default = some bs }
  unfolding entry
  entry-with_default = rw (take-append bs (drop (length bs) us.default_value)) refl

pub is_some-default : (us : UserSetting) → is_some (entry us).default ≡ us.default_is_set
unfolding entry
is_some-default us = by_flag us.default_is_set
  where
    by_flag : (f : Bool) → is_some (in_use f us.default_value_len us.default_value) ≡ f
    by_flag true = refl
    by_flag false = refl
