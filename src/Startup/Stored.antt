-- ===== src/Startup/Stored.antt =====
-- The table of entries that the library has after user_settings_load of
-- library/user_settings/user_settings.c is what is stored, and what is stored stays fit to load.
use mathlib.Core.Path.{fun_ext}
use irnas_usersettings_lib.Base.{
  ℕ, zero, suc, ◌≡◌, ◌≢◌, refl, ap, ◌∙◌, sym, subst, false, none, some, Option, List, [], ◌∷◌, map,
  arith, modify, All, Bytes, find_index, bytes_eq, Bool, Option-cases, inl, inr,
}
use irnas_usersettings_lib.Setting.{UserSetting, IsSound}
use irnas_usersettings_lib.Platform.{
  Platform, PlatformLaws, Handler, default_sh, value_sh, changed_sh, full_name,
}
use irnas_usersettings_lib.Settings.Restart.{from_storage}
use irnas_usersettings_lib.Settings.Abstract.{
  Entry, entry, Request, request_set, request_set_default, request_mark, request_clear, requested,
  requested_key, serve_all,
}
use irnas_usersettings_lib.Settings.Abstract.Stored.{InStore, stored_flag}
use irnas_usersettings_lib.Settings.Abstract.FromStorage.{
  FitIn, Holds, stored_entry, entry-stored_entry, InStore-Holds, InStore-stored_entry,
}
use irnas_usersettings_lib.Startup.{Declaration, plain, sized, declared}
use irnas_usersettings_lib.Startup.Loaded.{from_storage-Keeps}

-- What no request changes of an entry.
abbrev pub frame : Entry → Entry
frame e = record e { value = none; default = none; has_changed = false }

frame-requested :
    (overwrite : Bool) (r : Request) (e : Entry) → frame (requested overwrite r e) ≡ frame e
frame-requested overwrite (request_set key b bs) e = ground arith
frame-requested overwrite (request_set_default key b bs) e = ground arith
frame-requested overwrite (request_mark key) e = refl
frame-requested overwrite (request_clear key) e = refl

frame-modify :
    (f : Entry → Entry)
    → ((e : Entry) → frame (f e) ≡ frame e)
    → (es : List Entry) (p : ℕ) → map frame (modify es p f) ≡ map frame es
frame-modify f keep [] p = refl
frame-modify f keep (e ∷ es) zero = ap (λ x. x ∷ map frame es) (keep e)
frame-modify f keep (e ∷ es) (suc p) = ap (◌∷◌ (frame e)) (frame-modify f keep es p)

pub frame-serve_all :
    (overwrite : Bool) (rs : List Request) (es : List Entry) {es' : List Entry}
    → serve_all overwrite rs es ≡ some es'
    → map frame es' ≡ map frame es
frame-serve_all overwrite [] es e = ap (map frame) cc
frame-serve_all overwrite (r ∷ rs) es {es'} e =
    elim (Option-cases (find_index (λ e. bytes_eq (requested_key r) e.key) es)) [
      | inl missing ↦ cc
      | inr (p, found) ↦
          let es₁ = modify es p (requested overwrite r) in
          let rest : serve_all overwrite rs es₁ ≡ some es' = cc in
          frame-serve_all overwrite rs es₁ rest
          ∙ frame-modify (requested overwrite r) (frame-requested overwrite r) es p
    ]

module _ {Subsys Heap : Type 0} {z : Platform Subsys Heap} (laws : PlatformLaws z) where
  declared-entry :
      (sub : Subsys) (d : Declaration)
      → Holds laws sub (declared d)
      → entry (from_storage laws sub (declared d)) ≡ stored_entry laws sub (declared d)
  declared-entry sub (plain id key type) = entry-stored_entry laws sub _ refl refl refl
  declared-entry sub (sized id key type size) = entry-stored_entry laws sub _ refl refl refl

  -- A setting whose entry is what is stored, for another state of the subsystem with the same pairs.
  pub stored_entry-InStore :
      (sub sub' : Subsys) (us us' : UserSetting)
      → ((name : Bytes) → laws.stored name sub' ≡ laws.stored name sub)
      → us'.key ≡ us.key
      → entry us' ≡ stored_entry laws sub us
      → Holds laws sub us
      → InStore laws sub' us'
  unfolding entry
  stored_entry-InStore sub sub' us us' same same_key e holds =
      let at : (h : Handler)
          → laws.stored (full_name h us'.key) sub' ≡ laws.stored (full_name h us.key) sub =
        λ h. same (full_name h us'.key) ∙ ap (λ k. laws.stored (full_name h k) sub) same_key in
      record {
        value = at value_sh ∙ sym (ap (λ (e : Entry). e.value) e);
        default = at default_sh ∙ sym (ap (λ (e : Entry). e.default) e);
        flag = ap stored_flag (at changed_sh) ∙ sym (ap (λ (e : Entry). e.has_changed) e);
        value_filled = λ h. holds.value_filled (sym (ap (λ (e : Entry). e.value) e) ∙ h);
        default_filled = λ h. holds.default_filled (sym (ap (λ (e : Entry). e.default) e) ∙ h);
      }

  -- A setting in order with the key and the size of a declared one, whose entry is stored: what is
  -- stored can be loaded for the declared one.
  InStore-declared :
      (sub : Subsys) (us : UserSetting) (d : Declaration)
      → IsSound us
      → InStore laws sub us
      → frame (entry us) ≡ entry (declared d)
      → Holds laws sub (declared d) × (stored_entry laws sub (declared d) ≡ entry us)
  unfolding entry
  InStore-declared sub us d sound i e =
      let key : us.key ≡ (declared d).key = ap (λ (e : Entry). e.key) e in
      let size : us.max_size ≡ (declared d).max_size = ap (λ (e : Entry). e.max_size) e in
      let holds = InStore-Holds laws sub us sound i in
      let fit = λ (h : Handler) (f : FitIn us.max_size (laws.stored (full_name h us.key) sub)).
        subst (λ n. FitIn n (laws.stored (full_name h (declared d).key) sub)) size
          (subst (λ k. FitIn us.max_size (laws.stored (full_name h k) sub)) key f) in
      let filled = λ (h : Handler) (f : laws.stored (full_name h us.key) sub ≢ some []).
        subst (λ k. laws.stored (full_name h k) sub ≢ some []) key f in
      (
        record {
          value_fits = fit value_sh holds.value_fits;
          default_fits = fit default_sh holds.default_fits;
          value_filled = filled value_sh holds.value_filled;
          default_filled = filled default_sh holds.default_filled;
        },
        ap
              (λ (e : Entry). record e {
                value = laws.stored (full_name value_sh e.key) sub;
                default = laws.stored (full_name default_sh e.key) sub;
                has_changed = stored_flag (laws.stored (full_name changed_sh e.key) sub);
              })
              (sym e)
            ∙ InStore-stored_entry laws sub us i,
      )

  pub IsStored-declared :
      (sub : Subsys) (l : List UserSetting) (ds : List Declaration)
      → All IsSound l
      → All (InStore laws sub) l
      → map frame (map entry l) ≡ map entry (map declared ds)
      → All (Holds laws sub) (map declared ds)
        × (map (stored_entry laws sub) (map declared ds) ≡ map entry l)
  IsStored-declared sub [] [] sounds all e = (tt, refl)
  IsStored-declared sub [] (d ∷ ds) sounds all e = cc
  IsStored-declared sub (us ∷ l) [] sounds all e = cc
  IsStored-declared sub (us ∷ l) (d ∷ ds) sounds all e =
      let head : frame (entry us) ≡ entry (declared d) = cc in
      let tail : map frame (map entry l) ≡ map entry (map declared ds) = cc in
      let (holds, same) = InStore-declared sub us d sounds.0 all.0 head in
      let (all_hold, all_same) = IsStored-declared sub l ds sounds.1 all.1 tail in
      (
        (holds, all_hold),
        ap (λ e. e ∷ map (stored_entry laws sub) (map declared ds)) same
            ∙ ap (◌∷◌ (entry us)) all_same,
      )

  -- In another state of the subsystem with the same pairs.
  module _ (sub sub' : Subsys)
      (same : (name : Bytes) → laws.stored name sub' ≡ laws.stored name sub) where
    same-Holds : (us : UserSetting) → Holds laws sub us → Holds laws sub' us
    same-Holds us h = record {
      value_fits = subst (FitIn us.max_size) (sym (same (full_name value_sh us.key))) h.value_fits;
      default_fits =
          subst (FitIn us.max_size) (sym (same (full_name default_sh us.key))) h.default_fits;
      value_filled = λ e. h.value_filled (sym (same (full_name value_sh us.key)) ∙ e);
      default_filled = λ e. h.default_filled (sym (same (full_name default_sh us.key)) ∙ e);
    }

    pub same-All-Holds : (l : List UserSetting) → All (Holds laws sub) l → All (Holds laws sub') l
    same-All-Holds [] h = tt
    same-All-Holds (us ∷ l) h = (same-Holds us h.0, same-All-Holds l h.1)

    pub same-stored_entry :
        (l : List UserSetting) → map (stored_entry laws sub') l ≡ map (stored_entry laws sub) l
    same-stored_entry l =
        ap
          (λ (store : Bytes → Option Bytes).
            map
              (λ us. record (entry us) {
                value = store (full_name value_sh us.key);
                default = store (full_name default_sh us.key);
                has_changed = stored_flag (store (full_name changed_sh us.key));
              })
              l)
          (fun_ext same)

  -- The same for the whole table, after user_settings_load.
  pub loaded-entries :
      (sub : Subsys) (ds : List Declaration)
      → All (Holds laws sub) (map declared ds)
      → map entry (map (from_storage laws sub) (map declared ds))
        ≡ map (stored_entry laws sub) (map declared ds)
  loaded-entries sub [] h = refl
  loaded-entries sub (d ∷ ds) h =
      ap (λ e. e ∷ map entry (map (from_storage laws sub) (map declared ds)))
        (declared-entry sub d h.0)
      ∙ ap (◌∷◌ (stored_entry laws sub (declared d))) (loaded-entries sub ds h.1)

  pub loaded-IsStored :
      (sub sub' : Subsys) (ds : List Declaration)
      → ((name : Bytes) → laws.stored name sub' ≡ laws.stored name sub)
      → All (Holds laws sub) (map declared ds)
      → All (InStore laws sub') (map (from_storage laws sub) (map declared ds))
  loaded-IsStored sub sub' [] same h = tt
  loaded-IsStored sub sub' (d ∷ ds) same h = (
    stored_entry-InStore sub sub' (declared d) (from_storage laws sub (declared d)) same
        (from_storage-Keeps laws sub (declared d)).same_key (declared-entry sub d h.0) h.0,
    loaded-IsStored sub sub' ds same h.1,
  )

  -- The blank declared setting is its own frame.
  pub frame-stored_entry :
      (sub : Subsys) (ds : List Declaration)
      → map frame (map (stored_entry laws sub) (map declared ds)) ≡ map entry (map declared ds)
  unfolding entry
  frame-stored_entry sub [] = refl
  frame-stored_entry sub (plain id key type ∷ ds) =
      ap (◌∷◌ (entry (declared (plain id key type)))) (frame-stored_entry sub ds)
  frame-stored_entry sub (sized id key type size ∷ ds) =
      ap (◌∷◌ (entry (declared (sized id key type size)))) (frame-stored_entry sub ds)
