-- ===== src/Settings/Handlers.antt =====
-- The three `h_set` callbacks of library/user_settings/user_settings.c, which the settings
-- subsystem calls when a pair is loaded or set at run time.
use irnas_usersettings_lib.Base.{
  ℕ, Bool, true, Option, none, some, [], ◌∷◌, ◌++◌, length, drop, M, Bytes, ltb, ◌==◌,
  if◌then◌else◌, not, ok, err, enoent, einval, Status, ◌>>=◌, ◌>>◌, pure, update, done,
}
use irnas_usersettings_lib.Setting.{UserSetting}
use irnas_usersettings_lib.Platform.{
  HandlerCall, ReadResult, failed, got, Handler, default_sh, value_sh, changed_sh,
}
use irnas_usersettings_lib.State.{State, deref, write}
use irnas_usersettings_lib.SettingsList.{get_by_key}

-- The block after its first bytes were overwritten.
abbrev pub overwrite : Bytes → Bytes → Bytes
overwrite bs block = bs ++ drop (length bs) block

abbrev pub with_default : Bytes → UserSetting → UserSetting
with_default bs us = record us {
  default_value = overwrite bs us.default_value;
  default_value_len = length bs;
  default_is_set = true;
}

abbrev pub with_value : Bytes → UserSetting → UserSetting
with_value bs us = record us { value = overwrite bs us.value; value_len = length bs; is_set = true }

abbrev pub with_changed_flag : Bool → UserSetting → UserSetting
with_changed_flag flag us = record us { has_changed_recently = flag }

module _ {Subsys Heap : Type 0} where
  -- `if (callback && prv_is_loaded) callback(setting->id, setting->key)`
  abbrev pub call_on_change : Option ℕ → UserSetting → State Subsys Heap → State Subsys Heap
  call_on_change none us s = s
  call_on_change (some callback) us s =
      if s.is_loaded
      then record s {
        on_changes = s.on_changes ++ record { callback = callback; id = us.id; key = us.key } ∷ [];
      }
      else s

  default_read : ℕ → ReadResult → M (State Subsys Heap) Status
  default_read p (failed e) = pure (err e)
  default_read p (got []) = pure (ok tt)
  default_read p (got (b ∷ bs)) = do update (write p (with_default (b ∷ bs))); pure (ok tt)

  unfoldable pub prv_default_set_cb : HandlerCall → M (State Subsys Heap) Status
  unfolding get_by_key default_read
  prv_default_set_cb c s = elim (get_by_key c.key s.settings) [
    | none ↦ done (err enoent, s)
    | some p ↦
        (do
          us ← deref p
          if ltb us.max_size c.len then pure (err einval) else default_read p (c.read us.max_size))
          s
  ]

  value_read : ℕ → ReadResult → M (State Subsys Heap) Status
  value_read p (failed e) = pure (err e)
  value_read p (got []) = pure (ok tt)
  value_read p (got (b ∷ bs)) = do
    update (write p (with_value (b ∷ bs)))
    us ← deref p
    update (λ s. call_on_change s.global_on_change_cb us s)
    update (call_on_change us.on_change_cb us)
    pure (ok tt)

  unfoldable pub prv_value_set_cb : HandlerCall → M (State Subsys Heap) Status
  unfolding get_by_key value_read
  prv_value_set_cb c s = elim (get_by_key c.key s.settings) [
    | none ↦ done (err enoent, s)
    | some p ↦
        (do
          us ← deref p
          if ltb us.max_size c.len then pure (err einval) else value_read p (c.read us.max_size))
          s
  ]

  -- A byte that is not 0 is `true`.
  changed_read : ℕ → ReadResult → M (State Subsys Heap) Status
  changed_read p (failed e) = pure (err e)
  changed_read p (got []) = pure (ok tt)
  changed_read p (got (b ∷ bs)) = do
    update (write p (with_changed_flag (not (b == 0))))
    pure (ok tt)

  -- `sizeof(setting->has_changed_recently)` is 1.
  unfoldable pub prv_changed_flag_set_cb : HandlerCall → M (State Subsys Heap) Status
  unfolding get_by_key changed_read
  prv_changed_flag_set_cb c s = elim (get_by_key c.key s.settings) [
    | none ↦ done (err enoent, s)
    | some p ↦ changed_read p (c.read 1) s
  ]

  -- The `.h_set` of each handler.
  unfoldable pub h_set : Handler → HandlerCall → M (State Subsys Heap) Status
  unfolding prv_default_set_cb prv_value_set_cb prv_changed_flag_set_cb
  h_set default_sh = prv_default_set_cb
  h_set value_sh = prv_value_set_cb
  h_set changed_sh = prv_changed_flag_set_cb
