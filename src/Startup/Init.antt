-- ===== src/Startup/Init.antt =====
-- user_settings_init of library/user_settings/user_settings.c, when it succeeds and when it fails.
use irnas_usersettings_lib.Base.{
  ◌≡◌, refl, ◌∙◌, false, true, [], arith, Bytes, Errno, Status, ok, err, eio, done,
}
use irnas_usersettings_lib.Platform.{
  Platform, PlatformLaws, Handler, default_sh, value_sh, changed_sh,
}
use irnas_usersettings_lib.State.{State}
use irnas_usersettings_lib.Settings.Init.{init}

-- What the documentation of the settings subsystem promises of starting it: a handler whose
-- registration succeeds is registered, the others stay so, and what is stored is left alone.
pub record StartLaws {Subsys Heap : Type 0} {z : Platform Subsys Heap} (laws : PlatformLaws z)
    : Type 0 where
  pub registers :
      (h : Handler) (sub : Subsys)
      → (z.settings_register h sub).0 ≡ ok tt
      → laws.registered h (z.settings_register h sub).1 ≡ true
  pub register_keeps :
      (g h : Handler) (sub : Subsys)
      → laws.registered g sub ≡ true
      → laws.registered g (z.settings_register h sub).1 ≡ true
  pub register_stored :
      (h : Handler) (name : Bytes) (sub : Subsys)
      → laws.stored name (z.settings_register h sub).1 ≡ laws.stored name sub
  pub init_stored :
      (name : Bytes) (sub : Subsys)
      → laws.stored name (z.settings_subsys_init sub).1 ≡ laws.stored name sub

-- The next call is made when the one before succeeded.
abbrev pub and_then :
    {Subsys : Type 0} → Status × Subsys → (Subsys → Status × Subsys) → Status × Subsys
and_then (ok t, sub) f = f sub
and_then (err e, sub) f = (err e, sub)

-- The four calls of the settings subsystem that init makes.
abbrev pub started : {Subsys Heap : Type 0} → Platform Subsys Heap → Subsys → Status × Subsys
started z sub =
    and_then
      (and_then (and_then (z.settings_subsys_init sub) (z.settings_register default_sh))
        (z.settings_register value_sh))
      (z.settings_register changed_sh)

module _ {Subsys Heap : Type 0} (z : Platform Subsys Heap) (s : State Subsys Heap)
    (fresh : s.is_inited ≡ false) where
  pub init_ok :
      (started z s.subsys).0 ≡ ok tt
      → init z s
        ≡ done
            (ok tt, record s { settings = []; subsys = (started z s.subsys).1; is_inited = true })
  unfolding init
  init_ok h = ground arith

  pub init_failed :
      (e : Errno)
      → (started z s.subsys).0 ≡ err e
      → init z s ≡ done (err eio, record s { settings = []; subsys = (started z s.subsys).1 })
  unfolding init
  init_failed e h = ground arith

-- What a call never changes is not changed by calling it after another.
and_then_keeps :
    {Subsys A : Type 0} (view : Subsys → A) (r : Status × Subsys) (f : Subsys → Status × Subsys)
    → ((sub : Subsys) → view (f sub).1 ≡ view sub)
    → view (and_then r f).1 ≡ view r.1
and_then_keeps view (ok t, sub) f h = h sub
and_then_keeps view (err e, sub) f h = refl

module _ {Subsys Heap : Type 0} {z : Platform Subsys Heap} (laws : PlatformLaws z)
    (start_laws : StartLaws laws) where
  -- After one more registration that succeeded.
  registers_next :
      (h : Handler) (r : Status × Subsys)
      → (and_then r (z.settings_register h)).0 ≡ ok tt
      → let after = (and_then r (z.settings_register h)).1 in
        (r.0 ≡ ok tt)
        × (laws.registered h after ≡ true)
        × ((g : Handler) → laws.registered g r.1 ≡ true → laws.registered g after ≡ true)
  registers_next h (ok t, sub) e =
      (refl, start_laws.registers h sub e, λ g k. start_laws.register_keeps g h sub k)
  registers_next h (err x, sub) e = cc

  pub started-registered :
      (sub : Subsys)
      → (started z sub).0 ≡ ok tt
      → (h : Handler) → laws.registered h (started z sub).1 ≡ true
  started-registered sub e =
      let (e₂, changed, keep) = registers_next changed_sh _ e in
      let (e₁, value, keep') = registers_next value_sh _ e₂ in
      let (e₀, default, keep'') = registers_next default_sh _ e₁ in
      λ h. elim h as (λ h. laws.registered h (started z sub).1 ≡ true) [
        | default_sh ↦ keep default_sh (keep' default_sh default)
        | value_sh ↦ keep value_sh value
        | changed_sh ↦ changed
      ]

  pub started-stored :
      (name : Bytes) (sub : Subsys) → laws.stored name (started z sub).1 ≡ laws.stored name sub
  started-stored name sub =
      and_then_keeps (laws.stored name) _ (z.settings_register changed_sh)
        (start_laws.register_stored changed_sh name)
      ∙ and_then_keeps (laws.stored name) _ (z.settings_register value_sh)
          (start_laws.register_stored value_sh name)
      ∙ and_then_keeps (laws.stored name) (z.settings_subsys_init sub)
          (z.settings_register default_sh) (start_laws.register_stored default_sh name)
      ∙ start_laws.init_stored name sub
