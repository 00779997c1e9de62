-- ===== src/Shell.antt =====
-- library/user_settings/user_settings_shell.c: the commands of the shell. What a command prints is
-- a list of lines with their arguments; strtol and strtoll are parameters.
pub mod Printing
pub mod Completion
pub mod Commands
use irnas_usersettings_lib.Base.{
  ℕ, zero, suc, ◌*◌, ◌/◌, Bool, true, false, not, Option, none, some, List, [], ◌∷◌, ◌++◌, length,
  get_elem?, M, Bytes, ltb, ◌==◌, if◌then◌else◌, Status, ok, err, einval, enoent, Outcome,
  out_of_bounds, bad_pointer, no_fuel, done, fault, ◌>>=◌, ◌>>◌, pure, stop, gets, update,
}
use irnas_usersettings_lib.Setting.{
  UserSetting, UserSettingType, type_bool, type_u8, type_u16, type_u32, type_u64, type_i8, type_i16,
  type_i32, type_i64, type_str, type_bytes,
}
use irnas_usersettings_lib.Platform.{Platform}
use irnas_usersettings_lib.State.{State, deref}
use irnas_usersettings_lib.Memory.{
  ℤ, pos, to_unsigned, le_bytes, le_value, read_prefix, read_unsigned, read_signed, read_string,
}
use irnas_usersettings_lib.Hex.{hex_encode, hex_decode}
use irnas_usersettings_lib.Walk.{walk}
use irnas_usersettings_lib.SettingsList.{get_by_key, IterCtx, iter_start, iter_next}
use irnas_usersettings_lib.Settings.Change.{
  bool_byte, set_with_key, set_default_with_key, clear_changed_with_key,
}
use irnas_usersettings_lib.Settings.Restore.{
  restore_defaults, restore_default_with_key, clear_changed,
}

-- strtol(value, NULL, 10) and strtoll(value, NULL, 10)
pub record NumberParser : Type 0 where
  pub strtol : Bytes → ℤ
  pub strtoll : Bytes → ℤ

-- A value as it is printed: a number, a string in quotes, or bytes as hexadecimal text.
pub data Printed : Type 0 where
  printed_number : ℤ → Printed
  printed_string printed_hex : Bytes → Printed

-- The arguments of a line; `none` is printed as "/".
pub data Line : Type 0 where
  setting_line : ℕ → Bytes → Option Printed → Option Printed → Line
  key_not_found : Bytes → Line
  unknown_parameter : Bytes → Bytes → Line

pub record Session (Subsys Heap : Type 0) : Type 0 where
  pub library : State Subsys Heap
  pub lines : List Line

module _ {Subsys Heap : Type 0} where
  abbrev pub in_library : {A : Type 0} → M (State Subsys Heap) A → M (Session Subsys Heap) A
  in_library m e = elim (m e.library) [
    | done (a, s) ↦ done (a, record e { library = s })
    | fault f ↦ fault f
  ]

  -- shell_print and shell_error
  abbrev pub print : Line → M (Session Subsys Heap) (Unit {0})
  print line = update (λ e. record e { lines = e.lines ++ line ∷ [] })

  -- The argument that the format of a type takes from a block.
  unfoldable pub printed : UserSettingType → Bytes → ℕ → M (Session Subsys Heap) Printed
  printed type_bool block len = do
    bs ← read_prefix 1 block
    pure (printed_number (pos (bool_byte (not (le_value bs == 0)))))
  printed type_u8 block len = do v ← read_unsigned 1 block; pure (printed_number v)
  printed type_i8 block len = do v ← read_signed 1 block; pure (printed_number v)
  printed type_u16 block len = do v ← read_unsigned 2 block; pure (printed_number v)
  printed type_i16 block len = do v ← read_signed 2 block; pure (printed_number v)
  printed type_u32 block len = do v ← read_unsigned 4 block; pure (printed_number v)
  printed type_i32 block len = do v ← read_signed 4 block; pure (printed_number v)
  printed type_u64 block len = do v ← read_unsigned 8 block; pure (printed_number v)
  printed type_i64 block len = do v ← read_signed 8 block; pure (printed_number v)
  printed type_str block len = do s ← read_string block; pure (printed_string s)
  printed type_bytes block len = do bs ← read_prefix len block; pure (printed_hex (hex_encode bs))

  abbrev pub printed_if :
      Bool → UserSettingType → Bytes → ℕ → M (Session Subsys Heap) (Option Printed)
  printed_if true type block len = do v ← printed type block len; pure (some v)
  printed_if false type block len = pure none

  unfoldable pub prv_shell_print_setting : UserSetting → M (Session Subsys Heap) (Unit {0})
  unfolding printed
  prv_shell_print_setting us = do
    value ← printed_if us.is_set us.setting_type us.value us.value_len
    default ← printed_if us.default_is_set us.setting_type us.default_value us.default_value_len
    print (setting_line us.id us.key value default)

  unfoldable pub cmd_list : M (Session Subsys Heap) Status
  unfolding prv_shell_print_setting
  cmd_list = do l ← gets (λ e. e.library.settings); walk prv_shell_print_setting l; pure (ok tt)

  -- The body of the loop of cmd_list_changed.
  unfoldable pub print_changed : UserSetting → M (Session Subsys Heap) (Unit {0})
  unfolding prv_shell_print_setting
  print_changed us = if us.has_changed_recently then prv_shell_print_setting us else pure tt

  unfoldable pub cmd_list_changed : M (Session Subsys Heap) Status
  unfolding print_changed
  cmd_list_changed = do l ← gets (λ e. e.library.settings); walk print_changed l; pure (ok tt)

  -- user_settings_list_get_by_key, and what a command does if it finds none
  unfoldable pub with_setting :
      Bytes → (ℕ → M (Session Subsys Heap) Status) → M (Session Subsys Heap) Status
  with_setting key found e = elim (get_by_key key e.library.settings) [
    | none ↦ (do print (key_not_found key); pure (err enoent)) e
    | some p ↦ found p e
  ]

  unfoldable pub cmd_get : Bytes → M (Session Subsys Heap) Status
  unfolding with_setting prv_shell_print_setting
  cmd_get key =
      with_setting key λ p. do us ← in_library (deref p); prv_shell_print_setting us; pure (ok tt)

  -- The bytes of `v` for each type; the buffer for a hexadecimal string has 1024 bytes.
  unfoldable pub shell_bytes : NumberParser → UserSettingType → Bytes → M (State Subsys Heap) Bytes
  shell_bytes c type_bool value = pure (bool_byte (not (to_unsigned 32 (c.strtol value) == 0)) ∷ [])
  shell_bytes c type_i8 value = pure (le_bytes 1 (to_unsigned 8 (c.strtol value)))
  shell_bytes c type_i16 value = pure (le_bytes 2 (to_unsigned 16 (c.strtol value)))
  shell_bytes c type_i32 value = pure (le_bytes 4 (to_unsigned 32 (c.strtol value)))
  shell_bytes c type_i64 value = pure (le_bytes 8 (to_unsigned 64 (c.strtoll value)))
  shell_bytes c type_u8 value = pure (le_bytes 1 (to_unsigned 8 (c.strtol value)))
  shell_bytes c type_u16 value = pure (le_bytes 2 (to_unsigned 16 (c.strtol value)))
  shell_bytes c type_u32 value = pure (le_bytes 4 (to_unsigned 32 (c.strtol value)))
  shell_bytes c type_u64 value = pure (le_bytes 8 (to_unsigned 64 (c.strtoll value)))
  shell_bytes c type_str value = pure (value ++ 0 ∷ [])
  shell_bytes c type_bytes value =
      if ltb 1024 (length value / 2) then stop out_of_bounds else pure (hex_decode value)

  unfoldable pub prv_set_helper :
      NumberParser
      → Bytes
      → UserSetting
      → (Bytes → Bytes → M (State Subsys Heap) Status)
      → M (State Subsys Heap) Status
  unfolding shell_bytes
  prv_set_helper c value us setter_f = do
    bs ← shell_bytes c us.setting_type value
    setter_f us.key bs

module _ {Subsys Heap : Type 0} (z : Platform Subsys Heap) where
  unfoldable pub cmd_set : NumberParser → Bytes → Bytes → M (Session Subsys Heap) Status
  unfolding with_setting prv_set_helper
  cmd_set c name value =
      with_setting name λ p. in_library do us ← deref p; prv_set_helper c value us (set_with_key z)

  unfoldable pub cmd_set_default : NumberParser → Bytes → Bytes → M (Session Subsys Heap) Status
  unfolding with_setting prv_set_helper
  cmd_set_default c name value =
      with_setting name
        λ p. in_library do us ← deref p; prv_set_helper c value us (set_default_with_key z)

  unfoldable pub cmd_restore : M (Session Subsys Heap) Status
  cmd_restore = do in_library (restore_defaults z); pure (ok tt)

  unfoldable pub cmd_restore_one : Bytes → M (Session Subsys Heap) Status
  unfolding with_setting
  cmd_restore_one key =
      with_setting key λ p. do in_library (restore_default_with_key z key); pure (ok tt)

  unfoldable pub cmd_clear_changed : M (Session Subsys Heap) Status
  cmd_clear_changed = do in_library (clear_changed z); pure (ok tt)

  unfoldable pub cmd_clear_changed_one : Bytes → M (Session Subsys Heap) Status
  unfolding with_setting
  cmd_clear_changed_one key =
      with_setting key λ p. do
        us ← in_library (deref p)
        in_library (clear_changed_with_key z us.key)
        pure (ok tt)

module _ {Subsys Heap : Type 0} where
  unfoldable pub cmd_settings : Bytes → Bytes → M (Session Subsys Heap) Status
  cmd_settings name parameter = do print (unknown_parameter name parameter); pure (err einval)

-- The `while` of prv_get_us_by_idx, with the counter `c`.
unfoldable pub us_by_idx_loop : ℕ → ℕ → ℕ → IterCtx → List UserSetting → Outcome (Option ℕ)
us_by_idx_loop zero idx c ctx l = fault no_fuel
us_by_idx_loop (suc fuel) idx c ctx l =
    let (us, ctx') = iter_next ctx l in
    let rest = us_by_idx_loop fuel idx (suc c) ctx' l in
    elim us [ none ↦ done none | some p ↦ if idx == c then done (some p) else rest ]

-- A round for each setting, and one for the end; `none` is NULL.
unfoldable pub prv_get_us_by_idx : ℕ → List UserSetting → Outcome (Option ℕ)
unfolding us_by_idx_loop
prv_get_us_by_idx idx l = us_by_idx_loop (suc (length l)) idx 0 iter_start l

-- What `entry->syntax` is given.
unfoldable pub prv_shell_key_get : ℕ → List UserSetting → Outcome (Option Bytes)
unfolding prv_get_us_by_idx
prv_shell_key_get idx l = elim (prv_get_us_by_idx idx l) [
  | fault f ↦ fault f
  | done none ↦ done none
  | done (some p) ↦ elim (get_elem? l p) [ none ↦ fault bad_pointer | some us ↦ done (some us.key) ]
]
