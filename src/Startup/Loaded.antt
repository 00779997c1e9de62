-- ===== src/Startup/Loaded.antt =====
-- What user_settings_load of library/user_settings/user_settings.c keeps of a list of settings.
use mathlib.Core.Path.{fun_ext}
use irnas_usersettings_lib.Base.{
  ℕ, ◌≡◌, refl, ap, ◌∙◌, Option, none, some, List, [], ◌∷◌, map, arith, length, All, Bytes, ltb,
  Bool-cases, inl, inr,
}
use irnas_usersettings_lib.Setting.{UserSetting, IsSound}
use irnas_usersettings_lib.Platform.{
  Platform, PlatformLaws, Handler, default_sh, value_sh, changed_sh, full_name,
}
use irnas_usersettings_lib.SettingsList.Lookup.{IsWellFormed, ids, keys}
use irnas_usersettings_lib.Settings.Saving.{NameFits}
use irnas_usersettings_lib.Settings.Ready.{change-IsSound}
use irnas_usersettings_lib.Settings.Loading.{restored, restored_opt}
use irnas_usersettings_lib.Settings.Restart.{from_storage, from_store, restored-key}

restored-IsSound :
    (h : Handler) (bs : Bytes) (us : UserSetting) → IsSound us → IsSound (restored h bs us)
restored-IsSound default_sh [] us v = v
restored-IsSound value_sh [] us v = v
restored-IsSound changed_sh [] us v = v
restored-IsSound default_sh (b ∷ bs) us v = elim (Bool-cases (ltb us.max_size (length (b ∷ bs)))) [
  | inl long ↦ rw long v
  | inr fits ↦ rw fits (change-IsSound default_sh (b ∷ bs) us (ground arith) v)
]
restored-IsSound value_sh (b ∷ bs) us v = elim (Bool-cases (ltb us.max_size (length (b ∷ bs)))) [
  | inl long ↦ rw long v
  | inr fits ↦ rw fits (change-IsSound value_sh (b ∷ bs) us (ground arith) v)
]
restored-IsSound changed_sh (b ∷ bs) us v = change-IsSound changed_sh (b ∷ []) us (omega arith) v

restored-id : (h : Handler) (bs : Bytes) (us : UserSetting) → (restored h bs us).id ≡ us.id
restored-id default_sh [] us = refl
restored-id value_sh [] us = refl
restored-id changed_sh [] us = refl
restored-id default_sh (b ∷ bs) us = ground arith
restored-id value_sh (b ∷ bs) us = ground arith
restored-id changed_sh (b ∷ bs) us = refl

restored-validate_cb :
    (h : Handler) (bs : Bytes) (us : UserSetting) → (restored h bs us).validate_cb ≡ us.validate_cb
restored-validate_cb default_sh [] us = refl
restored-validate_cb value_sh [] us = refl
restored-validate_cb changed_sh [] us = refl
restored-validate_cb default_sh (b ∷ bs) us = ground arith
restored-validate_cb value_sh (b ∷ bs) us = ground arith
restored-validate_cb changed_sh (b ∷ bs) us = refl

restored-setting_type :
    (h : Handler) (bs : Bytes) (us : UserSetting)
    → (restored h bs us).setting_type ≡ us.setting_type
restored-setting_type default_sh [] us = refl
restored-setting_type value_sh [] us = refl
restored-setting_type changed_sh [] us = refl
restored-setting_type default_sh (b ∷ bs) us = ground arith
restored-setting_type value_sh (b ∷ bs) us = ground arith
restored-setting_type changed_sh (b ∷ bs) us = refl

-- What loading never changes of a setting, and what it keeps.
pub record Keeps (us us' : UserSetting) : Type 0 where
  pub same_id : us'.id ≡ us.id
  pub same_key : us'.key ≡ us.key
  pub same_type : us'.setting_type ≡ us.setting_type
  pub same_callback : us'.validate_cb ≡ us.validate_cb
  pub sound : IsSound us → IsSound us'

Keeps-trans : {a b c : UserSetting} → Keeps a b → Keeps b c → Keeps a c
Keeps-trans k l = record {
  same_id = l.same_id ∙ k.same_id;
  same_key = l.same_key ∙ k.same_key;
  same_type = l.same_type ∙ k.same_type;
  same_callback = l.same_callback ∙ k.same_callback;
  sound = λ v. l.sound (k.sound v);
}

restored_opt-Keeps :
    (h : Handler) (o : Option Bytes) (us : UserSetting) → Keeps us (restored_opt h o us)
restored_opt-Keeps h none us = record {
  same_id = refl;
  same_key = refl;
  same_type = refl;
  same_callback = refl;
  sound = λ v. v;
}
restored_opt-Keeps h (some bs) us = record {
  same_id = restored-id h bs us;
  same_key = restored-key h bs us;
  same_type = restored-setting_type h bs us;
  same_callback = restored-validate_cb h bs us;
  sound = restored-IsSound h bs us;
}

map-IsSound :
    (f : UserSetting → UserSetting)
    → ((us : UserSetting) → Keeps us (f us))
    → (l : List UserSetting) → All IsSound l
    → All IsSound (map f l)
map-IsSound f k [] h = tt
map-IsSound f k (us ∷ l) h = ((k us).sound h.0, map-IsSound f k l h.1)

pub map-ids :
    (f : UserSetting → UserSetting)
    → ((us : UserSetting) → Keeps us (f us))
    → (l : List UserSetting) → ids (map f l) ≡ ids l
map-ids f k [] = refl
map-ids f k (us ∷ l) = ground (arith, (k us).same_id, map-ids f k l)

pub map-keys :
    (f : UserSetting → UserSetting)
    → ((us : UserSetting) → Keeps us (f us))
    → (l : List UserSetting) → keys (map f l) ≡ keys l
map-keys f k [] = refl
map-keys f k (us ∷ l) = ground (arith, (k us).same_key, map-keys f k l)

pub map-names :
    (limit : ℕ) (f : UserSetting → UserSetting)
    → ((us : UserSetting) → Keeps us (f us))
    → (l : List UserSetting) → All (NameFits limit) l
    → All (NameFits limit) (map f l)
map-names limit f k [] h = tt
map-names limit f k (us ∷ l) h = (λ g. rw (k us).same_key (h.0 g), map-names limit f k l h.1)

pub map-IsWellFormed :
    (f : UserSetting → UserSetting)
    → ((us : UserSetting) → Keeps us (f us))
    → (l : List UserSetting) → IsWellFormed l
    → IsWellFormed (map f l)
map-IsWellFormed f k l w = record {
  distinct_ids = rw (map-ids f k l) w.distinct_ids;
  distinct_keys = rw (map-keys f k l) w.distinct_keys;
  sound = map-IsSound f k l w.sound;
}

module _ {Subsys Heap : Type 0} {z : Platform Subsys Heap} (laws : PlatformLaws z) where
  pub from_storage-Keeps : (sub : Subsys) (us : UserSetting) → Keeps us (from_storage laws sub us)
  from_storage-Keeps sub us =
      let one = λ (h : Handler) (us : UserSetting).
        restored_opt-Keeps h (laws.stored (full_name h us.key) sub) us in
      Keeps-trans (one default_sh us) (
        Keeps-trans (one value_sh (from_store laws sub default_sh us))
          (one changed_sh (from_store laws sub value_sh (from_store laws sub default_sh us))))

  -- Two states of the subsystem with the same pairs.
  pub from_storage_cong :
      (sub sub' : Subsys)
      → ((name : Bytes) → laws.stored name sub' ≡ laws.stored name sub)
      → from_storage laws sub' ≡ from_storage laws sub
  from_storage_cong sub sub' same =
      let one : (h : Handler) → from_store laws sub' h ≡ from_store laws sub h =
        λ h. fun_ext λ us. ap (λ o. restored_opt h o us) (same (full_name h us.key)) in
      fun_ext λ us.
        ap (λ f. from_store laws sub' changed_sh (from_store laws sub' value_sh (f us)))
          (one default_sh)
        ∙ ap (λ f. from_store laws sub' changed_sh (f (from_store laws sub default_sh us)))
            (one value_sh)
        ∙ ap (λ f. f (from_store laws sub value_sh (from_store laws sub default_sh us)))
            (one changed_sh)
