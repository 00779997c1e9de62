-- ===== src/Settings/Change.antt =====
-- Changing a setting, in library/user_settings/user_settings.c: prv_user_settings_set,
-- prv_user_settings_set_default, prv_set_changed_recently_flag and the functions that look a
-- setting up and call them.
use irnas_usersettings_lib.Base.{
  ℕ, Bool, true, false, not, ◌&&◌, Option, none, some, [], ◌∷◌, length, take, M, Bytes, bytes_eq,
  ltb, ◌==◌, if◌then◌else◌, ok, err, einval, enomem, ealready, Status, out_of_bounds, ◌>>=◌, ◌>>◌,
  pure, stop, gets, assert, assert_some,
}
use irnas_usersettings_lib.Setting.{UserSetting, ValidateCb}
use irnas_usersettings_lib.Platform.{
  Platform, Handler, default_sh, value_sh, changed_sh, full_name, Dispatch, not_found, calls,
}
use irnas_usersettings_lib.State.{State, deref}
use irnas_usersettings_lib.SettingsList.{get_by_key, get_by_id}
use irnas_usersettings_lib.Settings.Handlers.{h_set}
use irnas_usersettings_lib.Settings.Init.{call_subsys, or_eio}

-- What `validate_cb`, if there is one, says.
abbrev pub validated : Option ValidateCb → UserSetting → Bytes → Bool
validated none us bs = true
validated (some validate) us bs = validate us.id us.key bs

-- `bool` as the byte that is stored
abbrev pub bool_byte : Bool → ℕ
bool_byte true = 1
bool_byte false = 0

module _ {Subsys Heap : Type 0} where
  abbrev pub assert_loaded : M (State Subsys Heap) (Unit {0})
  assert_loaded = do loaded ← gets (λ s. s.is_loaded); assert loaded

  abbrev pub assert_inited : M (State Subsys Heap) (Unit {0})
  assert_inited = do inited ← gets (λ s. s.is_inited); assert inited

  -- user_settings_list_get_by_key and the assertion that it found one
  abbrev pub require_key : Bytes → M (State Subsys Heap) ℕ
  require_key key = do us ← gets (λ s. get_by_key key s.settings); assert_some us

  -- user_settings_list_get_by_id and the assertion that it found one
  abbrev pub require_id : ℕ → M (State Subsys Heap) ℕ
  require_id id = do us ← gets (λ s. get_by_id id s.settings); assert_some us

  dispatched : Dispatch → M (State Subsys Heap) Status
  dispatched (not_found e) = pure (err e)
  dispatched (calls h c) = h_set h c

module _ {Subsys Heap : Type 0} (z : Platform Subsys Heap) where
  unfoldable pub runtime_set : Bytes → Bytes → M (State Subsys Heap) Status
  unfolding dispatched
  runtime_set name bs = do
    sub ← gets (λ s. s.subsys)
    dispatched (z.settings_runtime_set name bs sub)

  -- The name is written to a buffer of SETTINGS_MAX_NAME_LEN + 1 bytes, then the pair is handed to
  -- the callback and saved.
  unfoldable pub set_and_save : Handler → Bytes → Bytes → M (State Subsys Heap) Status
  unfolding runtime_set
  set_and_save h key bs =
      let name = full_name h key in
      if ltb z.settings_max_name_len (length name) then stop out_of_bounds else do
        e ← runtime_set name bs
        or_eio e do e ← call_subsys (z.settings_save_one name bs); or_eio e (pure (ok tt))

  unfoldable pub prv_user_settings_set_default : ℕ → Bytes → M (State Subsys Heap) Status
  prv_user_settings_set_default p bs = do
    assert_loaded
    us ← deref p
    if length bs == us.default_value_len && bytes_eq bs (take us.default_value_len us.default_value)
        then pure (ok tt)
        else if not z.default_overwrite && us.default_is_set
        then pure (err ealready)
        else if ltb us.max_size (length bs)
        then pure (err enomem)
        else if not (validated us.validate_cb us bs)
        then pure (err einval)
        else set_and_save default_sh us.key bs

  unfoldable pub prv_set_changed_recently_flag : ℕ → Bool → M (State Subsys Heap) Status
  prv_set_changed_recently_flag p flag = do
    assert_loaded
    us ← deref p
    if bool_byte flag == bool_byte us.has_changed_recently
        then pure (ok tt)
        else set_and_save changed_sh us.key (bool_byte flag ∷ [])

  unfoldable pub prv_user_settings_set : ℕ → Bytes → M (State Subsys Heap) Status
  prv_user_settings_set p bs = do
    assert_loaded
    us ← deref p
    if ltb us.max_size (length bs)
        then pure (err enomem)
        else if bytes_eq (take (length bs) us.value) bs && length bs == us.value_len
        then pure (ok tt)
        else if not (validated us.validate_cb us bs)
        then pure (err einval)
        else do
          e ← set_and_save value_sh us.key bs
          or_eio e do e ← prv_set_changed_recently_flag p true; or_eio e (pure (ok tt))

  unfoldable pub set_default_with_key : Bytes → Bytes → M (State Subsys Heap) Status
  set_default_with_key key bs = do
    assert_loaded
    us ← require_key key
    prv_user_settings_set_default us bs

  unfoldable pub set_default_with_id : ℕ → Bytes → M (State Subsys Heap) Status
  set_default_with_id id bs = do
    assert_loaded
    us ← require_id id
    prv_user_settings_set_default us bs

  unfoldable pub set_with_key : Bytes → Bytes → M (State Subsys Heap) Status
  set_with_key key bs = do assert_loaded; us ← require_key key; prv_user_settings_set us bs

  unfoldable pub set_with_id : ℕ → Bytes → M (State Subsys Heap) Status
  set_with_id id bs = do assert_loaded; us ← require_id id; prv_user_settings_set us bs

  unfoldable pub set_changed_with_key : Bytes → M (State Subsys Heap) (Unit {0})
  set_changed_with_key key = do
    assert_loaded
    us ← require_key key
    prv_set_changed_recently_flag us true
    pure tt

  unfoldable pub set_changed_with_id : ℕ → M (State Subsys Heap) (Unit {0})
  set_changed_with_id id = do
    assert_loaded
    us ← require_id id
    prv_set_changed_recently_flag us true
    pure tt

  unfoldable pub clear_changed_with_key : Bytes → M (State Subsys Heap) (Unit {0})
  clear_changed_with_key key = do
    assert_loaded
    us ← require_key key
    prv_set_changed_recently_flag us false
    pure tt

  unfoldable pub clear_changed_with_id : ℕ → M (State Subsys Heap) (Unit {0})
  clear_changed_with_id id = do
    assert_loaded
    us ← require_id id
    prv_set_changed_recently_flag us false
    pure tt
