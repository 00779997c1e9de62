-- ===== src/Settings/Abstract/Stored.antt =====
-- The table of entries and what is stored (library/user_settings/user_settings.c over
-- settings_save_one).
use irnas_usersettings_lib.Base.{
  ℕ, zero, suc, ◌≡◌, ◌≢◌, refl, ap, ◌∙◌, sym, subst, Bool, true, false, not, ◌&&◌, Option, none,
  some, List, [], ◌∷◌, length, take-append, drop, modify, get_elem?, get_elem?-map, All, All-get,
  Distinct, Bytes, bytes_eq, bytes_eq-false, bytes_eq_refl, ◌==◌, if◌then◌else◌, ok,
}
use irnas_usersettings_lib.Setting.{UserSetting}
use irnas_usersettings_lib.Platform.{
  Platform, PlatformLaws, Handler, default_sh, value_sh, changed_sh, full_name,
}
use irnas_usersettings_lib.State.{State}
use irnas_usersettings_lib.SettingsList.Lookup.{keys}
use irnas_usersettings_lib.Settings.Saving.{IsReady, applied}
use irnas_usersettings_lib.Settings.Ready.{change, applied-settings}
use irnas_usersettings_lib.Settings.Abstract.{entry}

-- The flag that a stored pair stands for.
abbrev pub stored_flag : Option Bytes → Bool
stored_flag none = false
stored_flag (some []) = false
stored_flag (some (b ∷ bs)) = not (b == 0)

-- Under the three names of a setting stand its value, its default and its flag; neither the value
-- nor the default is empty.
pub record InStore {Subsys Heap : Type 0} {z : Platform Subsys Heap} (laws : PlatformLaws z)
    (sub : Subsys) (us : UserSetting) : Type 0 where
  pub value : laws.stored (full_name value_sh us.key) sub ≡ (entry us).value
  pub default : laws.stored (full_name default_sh us.key) sub ≡ (entry us).default
  pub flag : stored_flag (laws.stored (full_name changed_sh us.key) sub) ≡ us.has_changed_recently
  pub value_filled : (entry us).value ≢ some []
  pub default_filled : (entry us).default ≢ some []

abbrev pub IsStored :
    {Subsys Heap : Type 0} {z : Platform Subsys Heap} → PlatformLaws z → State Subsys Heap → Type 0
IsStored laws s = All (InStore laws s.subsys) s.settings

abbrev same_handler : Handler → Handler → Bool
same_handler default_sh default_sh = true
same_handler value_sh value_sh = true
same_handler changed_sh changed_sh = true
same_handler _ _ = false

-- Names are the same only for the same handler and key.
name_test :
    (h g : Handler) (k j : Bytes)
    → bytes_eq (full_name h k) (full_name g j) ≡ (same_handler h g && bytes_eq k j)
unfolding bytes_eq
name_test default_sh default_sh k j = refl
name_test default_sh value_sh k j = refl
name_test default_sh changed_sh k j = refl
name_test value_sh default_sh k j = refl
name_test value_sh value_sh k j = refl
name_test value_sh changed_sh k j = refl
name_test changed_sh default_sh k j = refl
name_test changed_sh value_sh k j = refl
name_test changed_sh changed_sh k j = refl

untaken : (c : Bool) (x y : Option Bytes) → (if c && false then x else y) ≡ y
untaken true x y = refl
untaken false x y = refl

taken : (c : Bool) (x y : Option Bytes) → (if c && true then x else y) ≡ (if c then x else y)
taken true x y = refl
taken false x y = refl

-- A write at one position, where the others keep what they have.
All-modify_others :
    (P Q : UserSetting → Type 0) (l : List UserSetting) (p : ℕ) (f : UserSetting → UserSetting)
    (us : UserSetting)
    → get_elem? l p ≡ some us
    → Distinct (keys l)
    → ((a : UserSetting) → a.key ≢ us.key → P a → Q a)
    → Q (f us)
    → All P l
    → All Q (modify l p f)
All-modify_others P Q [] p f us here d others new all = tt
All-modify_others P Q (x ∷ l) zero f us here d others new all =
    let same : x ≡ us = cc in
    (
      subst (λ a. Q (f a)) (sym same) new,
      rest l (subst (λ a. All (λ k. a.key ≢ k) (keys l)) same d.0) all.1,
    )
  where
    rest : (l : List UserSetting) → All (λ k. us.key ≢ k) (keys l) → All P l → All Q l
    rest [] ne all = tt
    rest (a ∷ l) ne all = (others a (λ e. ne.0 (sym e)) all.0, rest l ne.1 all.1)
All-modify_others P Q (x ∷ l) (suc p) f us here d others new all = (
  others x (All-get (λ k. x.key ≢ k) (keys l) p d.0 (get_elem?-map (λ a. a.key) l p here)) all.0,
  All-modify_others P Q l p f us here d.1 others new all.1,
)

module _ {Subsys Heap : Type 0} {z : Platform Subsys Heap} (laws : PlatformLaws z) (h : Handler)
    (us : UserSetting) (b : ℕ) (bs : Bytes) (sub : Subsys)
    (save_ok : (z.settings_save_one (full_name h us.key) (b ∷ bs) sub).0 ≡ ok tt) where
  saved_sub : Subsys
  saved_sub = (z.settings_save_one (full_name h us.key) (b ∷ bs) sub).1

  stored_after :
      (g : Handler) (k : Bytes)
      → laws.stored (full_name g k) saved_sub ≡ (
          if same_handler h g && bytes_eq us.key k
          then some (b ∷ bs)
          else laws.stored (full_name g k) sub)
  unfolding saved_sub
  stored_after g k =
      laws.save_stored (full_name h us.key) (b ∷ bs) (full_name g k) sub save_ok
      ∙ ap (λ t. if t then some (b ∷ bs) else laws.stored (full_name g k) sub)
          (name_test h g us.key k)

  others_kept : (a : UserSetting) → a.key ≢ us.key → InStore laws sub a → InStore laws saved_sub a
  others_kept a ne i = record {
    value = kept value_sh ∙ i.value;
    default = kept default_sh ∙ i.default;
    flag = ap stored_flag (kept changed_sh) ∙ i.flag;
    value_filled = i.value_filled;
    default_filled = i.default_filled;
  }
    where
      kept :
          (g : Handler)
          → laws.stored (full_name g a.key) saved_sub ≡ laws.stored (full_name g a.key) sub
      kept g =
          stored_after g a.key
          ∙ ap
              (λ t.
                if same_handler h g && t
                then some (b ∷ bs)
                else laws.stored (full_name g a.key) sub)
              (bytes_eq-false us.key a.key (λ e. ne (sym e)))
          ∙ untaken (same_handler h g) (some (b ∷ bs)) (laws.stored (full_name g a.key) sub)

  own_after :
      (g : Handler)
      → laws.stored (full_name g us.key) saved_sub
        ≡ (if same_handler h g then some (b ∷ bs) else laws.stored (full_name g us.key) sub)
  own_after g =
      stored_after g us.key
      ∙ ap
          (λ t.
            if same_handler h g && t then some (b ∷ bs) else laws.stored (full_name g us.key) sub)
          (bytes_eq_refl us.key)
      ∙ taken (same_handler h g) (some (b ∷ bs)) (laws.stored (full_name g us.key) sub)

module _ {Subsys Heap : Type 0} {z : Platform Subsys Heap} (laws : PlatformLaws z)
    (us : UserSetting) (b : ℕ) (bs : Bytes) (sub : Subsys) where
  changed_stored :
      (h : Handler) (save_ok : (z.settings_save_one (full_name h us.key) (b ∷ bs) sub).0 ≡ ok tt)
      → InStore laws sub us
      → InStore laws (saved_sub laws h us b bs sub save_ok) (change h (b ∷ bs) us)
  unfolding entry
  changed_stored value_sh save_ok i = record {
    value =
        own_after laws value_sh us b bs sub save_ok value_sh
        ∙ ap some (sym (take-append (b ∷ bs) (drop (length (b ∷ bs)) us.value)));
    default = own_after laws value_sh us b bs sub save_ok default_sh ∙ i.default;
    flag = ap stored_flag (own_after laws value_sh us b bs sub save_ok changed_sh) ∙ i.flag;
    value_filled = λ e. cc;
    default_filled = i.default_filled;
  }
  changed_stored default_sh save_ok i = record {
    value = own_after laws default_sh us b bs sub save_ok value_sh ∙ i.value;
    default =
        own_after laws default_sh us b bs sub save_ok default_sh
        ∙ ap some (sym (take-append (b ∷ bs) (drop (length (b ∷ bs)) us.default_value)));
    flag = ap stored_flag (own_after laws default_sh us b bs sub save_ok changed_sh) ∙ i.flag;
    value_filled = i.value_filled;
    default_filled = λ e. cc;
  }
  changed_stored changed_sh save_ok i = record {
    value = own_after laws changed_sh us b bs sub save_ok value_sh ∙ i.value;
    default = own_after laws changed_sh us b bs sub save_ok default_sh ∙ i.default;
    flag = ap stored_flag (own_after laws changed_sh us b bs sub save_ok changed_sh);
    value_filled = i.value_filled;
    default_filled = i.default_filled;
  }

module _ {Subsys Heap : Type 0} {z : Platform Subsys Heap} (laws : PlatformLaws z) (p : ℕ)
    (us : UserSetting) (s : State Subsys Heap) (ready : IsReady laws s)
    (here : get_elem? s.settings p ≡ some us) where
  -- A pair that was given to its callback and saved.
  pub applied-IsStored :
      (h : Handler) (b : ℕ) (bs : Bytes)
      → (z.settings_save_one (full_name h us.key) (b ∷ bs) s.subsys).0 ≡ ok tt
      → IsStored laws s
      → IsStored laws (record (applied h p us (b ∷ bs) s) {
        subsys = (z.settings_save_one (full_name h us.key) (b ∷ bs) s.subsys).1;
      })
  unfolding saved_sub
  applied-IsStored h b bs save_ok all =
      let sub' = (z.settings_save_one (full_name h us.key) (b ∷ bs) s.subsys).1 in
      subst (All (InStore laws sub')) (sym (applied-settings h p us (b ∷ bs) s)) (
        All-modify_others (InStore laws s.subsys) (InStore laws sub') s.settings p
          (change h (b ∷ bs)) us here ready.well_formed.distinct_keys
          (others_kept laws h us b bs s.subsys save_ok)
          (changed_stored laws us b bs s.subsys h save_ok
            (All-get (InStore laws s.subsys) s.settings p all here))
          all)
