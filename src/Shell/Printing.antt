-- ===== src/Shell/Printing.antt =====
-- What the commands of library/user_settings/user_settings_shell.c print.
use mathlib.Core.List.{append_assoc, append-nil}
use irnas_usersettings_lib.Base.{
  ℕ, ◌≡◌, ◌∙◌, sym, refl, ap, arith, Bool, true, false, not, Option, none, some, List, [], ◌∷◌,
  ◌++◌, map, take, All, Bytes, ◌==◌, if◌then◌else◌, ok, done, Outcome, ◌>>=◌, pure, bind_done,
}
use irnas_usersettings_lib.Setting.{
  UserSetting, UserSettingType, type_bool, type_u8, type_u16, type_u32, type_u64, type_i8, type_i16,
  type_i32, type_i64, type_str, type_bytes,
}
use irnas_usersettings_lib.Memory.{pos, as_signed, le_value, text, HasType}
use irnas_usersettings_lib.Hex.{hex_encode}
use irnas_usersettings_lib.Walk.{walk, in_order, walk-in_order}
use irnas_usersettings_lib.Settings.Change.{bool_byte}
use irnas_usersettings_lib.Settings.Changed.{changed_only}
use irnas_usersettings_lib.Shell.{
  Printed, printed_number, printed_string, printed_hex, Line, setting_line, Session, printed,
  printed_if, prv_shell_print_setting, print_changed, cmd_list, cmd_list_changed,
}

-- The argument for a block.
abbrev pub printed_value : UserSettingType → Bytes → ℕ → Printed
printed_value type_bool block len =
    printed_number (pos (bool_byte (not (le_value (take 1 block) == 0))))
printed_value type_u8 block len = printed_number (pos (le_value (take 1 block)))
printed_value type_u16 block len = printed_number (pos (le_value (take 2 block)))
printed_value type_u32 block len = printed_number (pos (le_value (take 4 block)))
printed_value type_u64 block len = printed_number (pos (le_value (take 8 block)))
printed_value type_i8 block len = printed_number (as_signed 8 (le_value (take 1 block)))
printed_value type_i16 block len = printed_number (as_signed 16 (le_value (take 2 block)))
printed_value type_i32 block len = printed_number (as_signed 32 (le_value (take 4 block)))
printed_value type_i64 block len = printed_number (as_signed 64 (le_value (take 8 block)))
printed_value type_str block len = printed_string (text block)
printed_value type_bytes block len = printed_hex (hex_encode (take len block))

abbrev pub when : Bool → Printed → Option Printed
when true v = some v
when false v = none

-- The line of a setting: its ID and key, its value and its default, each if there is one.
abbrev pub line_of : UserSetting → Line
line_of us =
    setting_line us.id us.key (when us.is_set (printed_value us.setting_type us.value us.value_len))
      (when us.default_is_set (printed_value us.setting_type us.default_value us.default_value_len))

-- The blocks that are printed have the bytes that the type reads.
pub record IsPrintable (us : UserSetting) : Type 0 where
  pub value : us.is_set ≡ true → HasType us.setting_type us.value us.value_len
  pub default :
      us.default_is_set ≡ true → HasType us.setting_type us.default_value us.default_value_len

module _ {Subsys Heap : Type 0} where
  printed_lem :
      (type : UserSettingType) (block : Bytes) (len : ℕ) (e : Session Subsys Heap)
      → HasType type block len
      → printed type block len e ≡ done (printed_value type block len, e)
  unfolding printed
  printed_lem type_bool block len e t = ground arith
  printed_lem type_u8 block len e t = ground arith
  printed_lem type_u16 block len e t = ground arith
  printed_lem type_u32 block len e t = ground arith
  printed_lem type_u64 block len e t = ground arith
  printed_lem type_i8 block len e t = ground arith
  printed_lem type_i16 block len e t = ground arith
  printed_lem type_i32 block len e t = ground arith
  printed_lem type_i64 block len e t = ground arith
  printed_lem type_str block len e (s, ends) = ground arith
  printed_lem type_bytes block len e t = ground arith

  printed_if_lem :
      (b : Bool) (type : UserSettingType) (block : Bytes) (len : ℕ) (e : Session Subsys Heap)
      → (b ≡ true → HasType type block len)
      → printed_if b type block len e ≡ done (when b (printed_value type block len), e)
  printed_if_lem true type block len e t =
      bind_done (printed type block len) e (λ v. pure (some v))
        (printed_lem type block len e (t refl))
  printed_if_lem false type block len e t = refl

  abbrev said : Session Subsys Heap → List Line → Session Subsys Heap
  said e lines = record e { lines = e.lines ++ lines }

  pub print_setting_lem :
      (us : UserSetting) (e : Session Subsys Heap)
      → IsPrintable us
      → prv_shell_print_setting us e ≡ done (tt, said e (line_of us ∷ []))
  unfolding prv_shell_print_setting
  print_setting_lem us e t =
      let value = printed_if_lem us.is_set us.setting_type us.value us.value_len e t.value in
      let default =
        printed_if_lem us.default_is_set us.setting_type us.default_value us.default_value_len e
          t.default in
      ground (arith, value, default)

  abbrev outcome : Session Subsys Heap → List Line → Outcome (Unit {0} × Session Subsys Heap)
  outcome e lines = done (tt, record e { lines = lines })

  said_nothing : (e : Session Subsys Heap) → outcome e e.lines ≡ outcome e (e.lines ++ [])
  said_nothing e = ap (outcome e) (sym (append-nil e.lines))

  said_more :
      (e : Session Subsys Heap) (line : Line) (lines : List Line)
      → outcome e ((e.lines ++ line ∷ []) ++ lines) ≡ outcome e (e.lines ++ line ∷ lines)
  said_more e line lines = ap (outcome e) (append_assoc e.lines (line ∷ []) lines)

  prints_each :
      (l : List UserSetting) (e : Session Subsys Heap)
      → All IsPrintable l
      → in_order prv_shell_print_setting l e ≡ outcome e (e.lines ++ map line_of l)
  prints_each [] e t = said_nothing e
  prints_each (us ∷ l) e t =
      bind_done (prv_shell_print_setting us) e (λ _. in_order prv_shell_print_setting l)
        (print_setting_lem us e t.0)
      ∙ prints_each l (said e (line_of us ∷ [])) t.1
      ∙ said_more e (line_of us) (map line_of l)

  prints_changed :
      (l : List UserSetting) (e : Session Subsys Heap)
      → All IsPrintable l
      → in_order print_changed l e ≡ outcome e (e.lines ++ map line_of (changed_only l))
  unfolding print_changed
  prints_changed [] e t = said_nothing e
  prints_changed (us ∷ l) e t = by_flag us.has_changed_recently (λ e'. prints_changed l e' t.1)
    where
      by_flag :
          (f : Bool)
          → ((e' : Session Subsys Heap)
              → in_order print_changed l e' ≡ outcome e' (e'.lines ++ map line_of (changed_only l)))
          → ((if f then prv_shell_print_setting us else pure tt) >>= λ _. in_order print_changed l)
              e
            ≡ outcome e (e.lines ++ map line_of (if f then us ∷ changed_only l else changed_only l))
      by_flag true rest =
          bind_done (prv_shell_print_setting us) e (λ _. in_order print_changed l)
            (print_setting_lem us e t.0)
          ∙ rest (said e (line_of us ∷ []))
          ∙ said_more e (line_of us) (map line_of (changed_only l))
      by_flag false rest = rest e

  -- Where the blocks that are printed have the bytes that their types read (IsPrintable): `list`
  -- returns 0 and prints one line for each setting, in the order of the list, and `list_changed`
  -- does so for the settings whose changed flag is up. Neither changes the library.
  pub cmd_list_lem :
      (e : Session Subsys Heap)
      → All IsPrintable e.library.settings
      → (cmd_list e ≡ done (ok tt, record e { lines = e.lines ++ map line_of e.library.settings }))
        × (cmd_list_changed e
            ≡ done (
              ok tt,
              record e { lines = e.lines ++ map line_of (changed_only e.library.settings) },
            ))
  unfolding cmd_list cmd_list_changed
  cmd_list_lem e t =
      let l = e.library.settings in
      (
        bind_done (walk prv_shell_print_setting l) e (λ _. pure (ok tt))
            (walk-in_order prv_shell_print_setting l e ∙ prints_each l e t),
        bind_done (walk print_changed l) e (λ _. pure (ok tt))
            (walk-in_order print_changed l e ∙ prints_changed l e t),
      )
