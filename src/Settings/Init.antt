-- ===== src/Settings/Init.antt =====
-- user_settings_init, user_settings_add, user_settings_add_sized and user_settings_load of
-- library/user_settings/user_settings.c.
use irnas_usersettings_lib.Base.{
  ℕ, true, not, List, [], ◌∷◌, M, Bytes, ok, err, eio, Status, ◌>>=◌, ◌>>◌, pure, gets, update,
  assert, done,
}
use irnas_usersettings_lib.Setting.{UserSettingType, is_sized_type}
use irnas_usersettings_lib.Platform.{
  Platform, Handler, HandlerCall, default_sh, value_sh, changed_sh, prefix,
}
use irnas_usersettings_lib.State.{State}
use irnas_usersettings_lib.SettingsList.{list_init, add_fixed_size, add_variable_size}
use irnas_usersettings_lib.Settings.Handlers.{h_set}

module _ {Subsys Heap : Type 0} where
  -- A call of the settings subsystem that changes its state.
  abbrev pub call_subsys : (Subsys → Status × Subsys) → M (State Subsys Heap) Status
  call_subsys f s = let (r, sub) = f s.subsys in done (r, record s { subsys = sub })

  -- if (err) { return -EIO; } rest
  abbrev pub or_eio : Status → M (State Subsys Heap) Status → M (State Subsys Heap) Status
  or_eio (err e) rest = pure (err eio)
  or_eio (ok t) rest = rest

module _ {Subsys Heap : Type 0} (z : Platform Subsys Heap) where
  unfoldable pub init : M (State Subsys Heap) Status
  unfolding list_init
  init = do
    inited ← gets (λ s. s.is_inited)
    assert (not inited)
    list_init
    e ← call_subsys z.settings_subsys_init
    or_eio e do
      e ← call_subsys (z.settings_register default_sh)
      or_eio e do
        e ← call_subsys (z.settings_register value_sh)
        or_eio e do
          e ← call_subsys (z.settings_register changed_sh)
          or_eio e do update (λ s. record s { is_inited = true }); pure (ok tt)

  unfoldable pub add : ℕ → Bytes → UserSettingType → M (State Subsys Heap) (Unit {0})
  unfolding add_fixed_size
  add id key type = do
    inited ← gets (λ s. s.is_inited)
    assert inited
    assert (not (is_sized_type type))
    add_fixed_size z id key type
    pure tt

  unfoldable pub add_sized : ℕ → Bytes → UserSettingType → ℕ → M (State Subsys Heap) (Unit {0})
  unfolding add_variable_size
  add_sized id key type size = do
    inited ← gets (λ s. s.is_inited)
    assert inited
    assert (is_sized_type type)
    add_variable_size z id key type size
    pure tt

  -- The calls that settings_load_subtree makes; what the callbacks return does not stop it.
  unfoldable pub deliver : List (Handler × HandlerCall) → M (State Subsys Heap) (Unit {0})
  deliver [] = pure tt
  deliver ((h, c) ∷ rest) = do h_set h c; deliver rest

  unfoldable pub load_subtree : Handler → M (State Subsys Heap) Status
  unfolding deliver
  load_subtree h = do
    sub ← gets (λ s. s.subsys)
    let loaded = z.settings_load_subtree (prefix h) sub
    deliver loaded.0
    pure loaded.1

  unfoldable pub load : M (State Subsys Heap) Status
  unfolding load_subtree
  load = do
    inited ← gets (λ s. s.is_inited)
    assert inited
    e ← load_subtree default_sh
    or_eio e do
      e ← load_subtree value_sh
      or_eio e do
        e ← load_subtree changed_sh
        or_eio e do update (λ s. record s { is_loaded = true }); pure (ok tt)
