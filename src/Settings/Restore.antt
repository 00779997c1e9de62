-- ===== src/Settings/Restore.antt =====
-- Restoring defaults and clearing the changed flags, in library/user_settings/user_settings.c.
use irnas_usersettings_lib.Base.{
  ℕ, false, not, Option, none, take, M, Bytes, if◌then◌else◌, ok, Status, ◌>>=◌, ◌>>◌, pure,
}
use irnas_usersettings_lib.Platform.{Platform}
use irnas_usersettings_lib.State.{State, deref}
use irnas_usersettings_lib.SettingsList.{for_each}
use irnas_usersettings_lib.Settings.Change.{
  assert_loaded, require_key, require_id, prv_user_settings_set, prv_set_changed_recently_flag,
}

module _ {Subsys Heap : Type 0} (z : Platform Subsys Heap) where
  unfoldable pub prv_settings_restore : ℕ → M (State Subsys Heap) (Unit {0})
  prv_settings_restore p = do
    us ← deref p
    if not us.is_set
        then pure tt
        else do prv_user_settings_set z p (take us.default_value_len us.default_value); pure tt

  -- The bodies of the two loops.
  unfoldable pub restore_each : ℕ → M (State Subsys Heap) (Option (Unit {0}))
  restore_each p = do prv_settings_restore p; pure none

  unfoldable pub clear_each : ℕ → M (State Subsys Heap) (Option (Unit {0}))
  clear_each p = do prv_set_changed_recently_flag z p false; pure none

  unfoldable pub restore_defaults : M (State Subsys Heap) (Unit {0})
  restore_defaults = do assert_loaded; for_each restore_each; pure tt

  unfoldable pub restore_default_with_key : Bytes → M (State Subsys Heap) Status
  restore_default_with_key key = do
    assert_loaded
    us ← require_key key
    prv_settings_restore us
    pure (ok tt)

  unfoldable pub restore_default_with_id : ℕ → M (State Subsys Heap) Status
  restore_default_with_id id = do
    assert_loaded
    us ← require_id id
    prv_settings_restore us
    pure (ok tt)

  unfoldable pub clear_changed : M (State Subsys Heap) (Unit {0})
  clear_changed = do assert_loaded; for_each clear_each; pure tt
