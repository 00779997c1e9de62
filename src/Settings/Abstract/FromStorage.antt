-- ===== src/Settings/Abstract/FromStorage.antt =====
-- The entry of a setting that user_settings_load of library/user_settings/user_settings.c has taken
-- from the storage.
use irnas_usersettings_lib.Base.{
  ℕ, ◌≤◌, ◌≡◌, ◌≢◌, refl, ap, ◌∙◌, sym, subst, arith, Bool, true, false, Option, none, some, [],
  ◌∷◌, length, length-take-le, take-append, drop, Bytes, ltb, if◌then◌else◌,
}
use irnas_usersettings_lib.Setting.{UserSetting, IsSound}
use irnas_usersettings_lib.Platform.{
  Platform, PlatformLaws, default_sh, value_sh, changed_sh, full_name,
}
use irnas_usersettings_lib.Settings.Handlers.{with_value, with_default}
use irnas_usersettings_lib.Settings.Loading.{restored_opt}
use irnas_usersettings_lib.Settings.Survival.{default_keeps_size}
use irnas_usersettings_lib.Settings.Restart.{from_storage}
use irnas_usersettings_lib.Settings.Abstract.{Entry, entry, in_use}
use irnas_usersettings_lib.Settings.Abstract.Entries.{entry-with_default}
use irnas_usersettings_lib.Settings.Abstract.Stored.{stored_flag, InStore}

-- The bytes that are stored, if any are, fit.
abbrev pub FitIn : ℕ → Option Bytes → Type 0
FitIn n none = Unit
FitIn n (some bs) = length bs ≤ n

default_layer :
    (o : Option Bytes) (us : UserSetting)
    → us.default_is_set ≡ false
    → o ≢ some []
    → FitIn us.max_size o
    → entry (restored_opt default_sh o us) ≡ record (entry us) { default = o }
unfolding entry
default_layer none us unset filled fits = rw unset refl
default_layer (some []) us unset filled fits = absurd (filled refl)
default_layer (some (b ∷ bs)) us unset filled fits =
    let small : ltb us.max_size (length (b ∷ bs)) ≡ false = ground arith in
    ap (λ t. entry (if t then us else with_default (b ∷ bs) us)) small
    ∙ entry-with_default us (b ∷ bs)

value_layer :
    (o : Option Bytes) (us : UserSetting)
    → us.is_set ≡ false
    → o ≢ some []
    → FitIn us.max_size o
    → entry (restored_opt value_sh o us) ≡ record (entry us) { value = o }
unfolding entry
value_layer none us unset filled fits = rw unset refl
value_layer (some []) us unset filled fits = absurd (filled refl)
value_layer (some (b ∷ bs)) us unset filled fits =
    let small : ltb us.max_size (length (b ∷ bs)) ≡ false = ground arith in
    ap (λ t. entry (if t then us else with_value (b ∷ bs) us)) small
    ∙ ap (λ v. record (entry us) { value = some v })
        (take-append (b ∷ bs) (drop (length (b ∷ bs)) us.value))

flag_layer :
    (o : Option Bytes) (us : UserSetting)
    → us.has_changed_recently ≡ false
    → entry (restored_opt changed_sh o us) ≡ record (entry us) { has_changed = stored_flag o }
unfolding entry
flag_layer none us down = ap (λ f. record (entry us) { has_changed = f }) down
flag_layer (some []) us down = ap (λ f. record (entry us) { has_changed = f }) down
flag_layer (some (b ∷ bs)) us down = refl

-- What the first two layers leave alone.
default_keeps :
    (o : Option Bytes) (us : UserSetting)
    → ((restored_opt default_sh o us).key ≡ us.key)
      × ((restored_opt default_sh o us).is_set ≡ us.is_set)
      × ((restored_opt default_sh o us).has_changed_recently ≡ us.has_changed_recently)
default_keeps none us = (refl, refl, refl)
default_keeps (some []) us = (refl, refl, refl)
default_keeps (some (b ∷ bs)) us = (ground arith, ground arith, ground arith)

value_keeps :
    (o : Option Bytes) (us : UserSetting)
    → ((restored_opt value_sh o us).key ≡ us.key)
      × ((restored_opt value_sh o us).has_changed_recently ≡ us.has_changed_recently)
value_keeps none us = (refl, refl)
value_keeps (some []) us = (refl, refl)
value_keeps (some (b ∷ bs)) us = (ground arith, ground arith)

-- What is stored for a setting, as an entry.
abbrev pub stored_entry :
    {Subsys Heap : Type 0} {z : Platform Subsys Heap}
    → PlatformLaws z
    → Subsys
    → UserSetting
    → Entry
stored_entry laws sub us = record (entry us) {
  value = laws.stored (full_name value_sh us.key) sub;
  default = laws.stored (full_name default_sh us.key) sub;
  has_changed = stored_flag (laws.stored (full_name changed_sh us.key) sub);
}

-- What is stored under the names of a setting fits it, and neither its value nor its default is
-- empty.
pub record Holds {Subsys Heap : Type 0} {z : Platform Subsys Heap} (laws : PlatformLaws z)
    (sub : Subsys) (us : UserSetting) : Type 0 where
  pub value_fits : FitIn us.max_size (laws.stored (full_name value_sh us.key) sub)
  pub default_fits : FitIn us.max_size (laws.stored (full_name default_sh us.key) sub)
  pub value_filled : laws.stored (full_name value_sh us.key) sub ≢ some []
  pub default_filled : laws.stored (full_name default_sh us.key) sub ≢ some []

module _ {Subsys Heap : Type 0} {z : Platform Subsys Heap} (laws : PlatformLaws z) (sub : Subsys)
    (us : UserSetting) where
  -- A setting that has nothing yet takes what is stored.
  pub entry-stored_entry :
      us.is_set ≡ false
      → us.default_is_set ≡ false
      → us.has_changed_recently ≡ false
      → Holds laws sub us
      → entry (from_storage laws sub us) ≡ stored_entry laws sub us
  unfolding entry
  entry-stored_entry unset no_default down holds =
      let o_d = laws.stored (full_name default_sh us.key) sub in
      let u₁ = restored_opt default_sh o_d us in
      let keeps₁ = default_keeps o_d us in
      let o_v = laws.stored (full_name value_sh u₁.key) sub in
      let is_v : o_v ≡ laws.stored (full_name value_sh us.key) sub =
        ap (λ k. laws.stored (full_name value_sh k) sub) keeps₁.0 in
      let u₂ = restored_opt value_sh o_v u₁ in
      let keeps₂ = value_keeps o_v u₁ in
      let o_c = laws.stored (full_name changed_sh u₂.key) sub in
      let is_c : stored_flag o_c ≡ stored_flag (laws.stored (full_name changed_sh us.key) sub) =
        ap (λ k. stored_flag (laws.stored (full_name changed_sh k) sub)) (keeps₂.0 ∙ keeps₁.0) in
      let first = default_layer o_d us no_default holds.default_filled holds.default_fits in
      let second =
        value_layer o_v u₁ (keeps₁.1 ∙ unset) (λ e. holds.value_filled (sym is_v ∙ e))
          (subst (λ n. FitIn n o_v) (sym (default_keeps_size o_d us))
            (subst (FitIn us.max_size) (sym is_v) holds.value_fits)) in
      let third = flag_layer o_c u₂ (keeps₂.1 ∙ keeps₁.2 ∙ down) in
      third
      ∙ ap (λ (e : Entry). record e { has_changed = stored_flag o_c }) second
      ∙ ap (λ (e : Entry). record e { value = o_v; has_changed = stored_flag o_c }) first
      ∙ ap (λ o. record (entry us) { value = o; default = o_d; has_changed = stored_flag o_c }) is_v
      ∙ ap
          (λ f. record (entry us) {
            value = laws.stored (full_name value_sh us.key) sub;
            default = o_d;
            has_changed = f;
          })
          is_c

  value_fits : IsSound us → FitIn us.max_size (entry us).value
  unfolding entry
  value_fits sound = by_flag us.is_set
    where
      by_flag : (f : Bool) → FitIn us.max_size (in_use f us.value_len us.value)
      by_flag false = tt
      by_flag true = omega (arith, length-take-le us.value_len us.value, sound.fits)

  default_fits : IsSound us → FitIn us.max_size (entry us).default
  unfolding entry
  default_fits sound = by_flag us.default_is_set
    where
      by_flag : (f : Bool) → FitIn us.max_size (in_use f us.default_value_len us.default_value)
      by_flag false = tt
      by_flag true =
          omega (arith, length-take-le us.default_value_len us.default_value, sound.default_fits)

  -- What stands in the storage for a setting in order can be loaded, and is its entry.
  pub InStore-Holds : IsSound us → InStore laws sub us → Holds laws sub us
  InStore-Holds sound i = record {
    value_fits = subst (FitIn us.max_size) (sym i.value) (value_fits sound);
    default_fits = subst (FitIn us.max_size) (sym i.default) (default_fits sound);
    value_filled = λ e. i.value_filled (sym i.value ∙ e);
    default_filled = λ e. i.default_filled (sym i.default ∙ e);
  }

  pub InStore-stored_entry : InStore laws sub us → stored_entry laws sub us ≡ entry us
  unfolding entry
  InStore-stored_entry i =
      ap
        (λ o. record (entry us) {
          value = o;
          default = laws.stored (full_name default_sh us.key) sub;
          has_changed = stored_flag (laws.stored (full_name changed_sh us.key) sub);
        })
        i.value
      ∙ ap
          (λ o. record (entry us) {
            default = o;
            has_changed = stored_flag (laws.stored (full_name changed_sh us.key) sub);
          })
          i.default
      ∙ ap (λ f. record (entry us) { has_changed = f }) i.flag
