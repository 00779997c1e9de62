-- ===== src/Settings/Query.antt =====
-- Reading settings and registering callbacks, in library/user_settings/user_settings.c.
use irnas_usersettings_lib.Base.{
  ℕ, Bool, not, Option, none, some, M, Bytes, if◌then◌else◌, ◌>>=◌, ◌>>◌, pure, gets, update,
}
use irnas_usersettings_lib.Setting.{UserSetting, UserSettingType, ValidateCb}
use irnas_usersettings_lib.State.{State, deref, write}
use irnas_usersettings_lib.SettingsList.{get_by_key, get_by_id, is_null}
use irnas_usersettings_lib.Settings.Change.{
  assert_loaded, assert_inited, require_key, require_id, validated,
}

-- The block that the returned pointer points to, and the length that `*len` is given; `none` is
-- NULL.
unfoldable pub prv_user_setting_get : UserSetting → Option (Bytes × ℕ)
prv_user_setting_get us =
    if us.is_set
    then some (us.value, us.value_len)
    else if us.default_is_set
    then some (us.default_value, us.default_value_len)
    else none

unfoldable pub prv_user_setting_get_default : UserSetting → Option (Bytes × ℕ)
prv_user_setting_get_default us =
    if us.default_is_set then some (us.default_value, us.default_value_len) else none

module _ {Subsys Heap : Type 0} where
  unfoldable pub get_with_key : Bytes → M (State Subsys Heap) (Option (Bytes × ℕ))
  get_with_key key = do
    assert_loaded
    p ← require_key key
    us ← deref p
    pure (prv_user_setting_get us)

  unfoldable pub get_with_id : ℕ → M (State Subsys Heap) (Option (Bytes × ℕ))
  get_with_id id = do assert_loaded; p ← require_id id; us ← deref p; pure (prv_user_setting_get us)

  unfoldable pub get_default_with_key : Bytes → M (State Subsys Heap) (Option (Bytes × ℕ))
  get_default_with_key key = do
    assert_loaded
    p ← require_key key
    us ← deref p
    pure (prv_user_setting_get_default us)

  unfoldable pub get_default_with_id : ℕ → M (State Subsys Heap) (Option (Bytes × ℕ))
  get_default_with_id id = do
    assert_loaded
    p ← require_id id
    us ← deref p
    pure (prv_user_setting_get_default us)

  unfoldable pub is_set_with_key : Bytes → M (State Subsys Heap) Bool
  is_set_with_key key = do assert_loaded; p ← require_key key; us ← deref p; pure us.is_set

  unfoldable pub is_set_with_id : ℕ → M (State Subsys Heap) Bool
  is_set_with_id id = do assert_loaded; p ← require_id id; us ← deref p; pure us.is_set

  unfoldable pub has_default_with_key : Bytes → M (State Subsys Heap) Bool
  has_default_with_key key = do
    assert_loaded
    p ← require_key key
    us ← deref p
    pure us.default_is_set

  unfoldable pub has_default_with_id : ℕ → M (State Subsys Heap) Bool
  has_default_with_id id = do assert_loaded; p ← require_id id; us ← deref p; pure us.default_is_set

  unfoldable pub get_max_len_with_key : Bytes → M (State Subsys Heap) ℕ
  get_max_len_with_key key = do assert_loaded; p ← require_key key; us ← deref p; pure us.max_size

  unfoldable pub get_max_len_with_id : ℕ → M (State Subsys Heap) ℕ
  get_max_len_with_id id = do assert_loaded; p ← require_id id; us ← deref p; pure us.max_size

  unfoldable pub get_type_with_key : Bytes → M (State Subsys Heap) UserSettingType
  get_type_with_key key = do assert_loaded; p ← require_key key; us ← deref p; pure us.setting_type

  unfoldable pub get_type_with_id : ℕ → M (State Subsys Heap) UserSettingType
  get_type_with_id id = do assert_loaded; p ← require_id id; us ← deref p; pure us.setting_type

  unfoldable pub key_to_id : Bytes → M (State Subsys Heap) ℕ
  key_to_id key = do assert_loaded; p ← require_key key; us ← deref p; pure us.id

  unfoldable pub id_to_key : ℕ → M (State Subsys Heap) Bytes
  id_to_key id = do assert_loaded; p ← require_id id; us ← deref p; pure us.key

  unfoldable pub exists_with_key : Bytes → M (State Subsys Heap) Bool
  exists_with_key key = do
    assert_loaded
    us ← gets (λ s. get_by_key key s.settings)
    pure (not (is_null us))

  unfoldable pub exists_with_id : ℕ → M (State Subsys Heap) Bool
  exists_with_id id = do
    assert_loaded
    us ← gets (λ s. get_by_id id s.settings)
    pure (not (is_null us))

  unfoldable pub validate_with_key : Bytes → Bytes → M (State Subsys Heap) Bool
  validate_with_key key bs = do
    assert_inited
    p ← require_key key
    us ← deref p
    pure (validated us.validate_cb us bs)

  unfoldable pub validate_with_id : ℕ → Bytes → M (State Subsys Heap) Bool
  validate_with_id id bs = do
    assert_inited
    p ← require_id id
    us ← deref p
    pure (validated us.validate_cb us bs)

  unfoldable pub set_global_on_change_cb : Option ℕ → M (State Subsys Heap) (Unit {0})
  set_global_on_change_cb cb = do assert_inited; update (λ s. record s { global_on_change_cb = cb })

  unfoldable pub set_on_change_cb_with_key : Bytes → Option ℕ → M (State Subsys Heap) (Unit {0})
  set_on_change_cb_with_key key cb = do
    assert_inited
    p ← require_key key
    update (write p (λ us. record us { on_change_cb = cb }))

  unfoldable pub set_on_change_cb_with_id : ℕ → Option ℕ → M (State Subsys Heap) (Unit {0})
  set_on_change_cb_with_id id cb = do
    assert_inited
    p ← require_id id
    update (write p (λ us. record us { on_change_cb = cb }))

  unfoldable pub set_validate_cb_with_key :
      Bytes → Option ValidateCb → M (State Subsys Heap) (Unit {0})
  set_validate_cb_with_key key cb = do
    assert_inited
    p ← require_key key
    update (write p (λ us. record us { validate_cb = cb }))

  unfoldable pub set_validate_cb_with_id : ℕ → Option ValidateCb → M (State Subsys Heap) (Unit {0})
  set_validate_cb_with_id id cb = do
    assert_inited
    p ← require_id id
    update (write p (λ us. record us { validate_cb = cb }))
