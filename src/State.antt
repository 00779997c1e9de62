-- ===== src/State.antt =====
-- The static variables of library/user_settings/user_settings_list.c and user_settings.c, and how
-- code reads and writes a setting through a pointer to it.
use irnas_usersettings_lib.Base.{
  ℕ, Bool, Option, none, some, List, get_elem?, modify, M, bad_pointer, done, fault, Bytes,
}
use irnas_usersettings_lib.Setting.{UserSetting}

-- A call of an `on_change` callback, named by its number, with its arguments.
pub record OnChange : Type 0 where
  pub callback : ℕ
  pub id : ℕ
  pub key : Bytes

-- `settings` is prv_user_settings_list, oldest first; a `struct user_setting *` is a position in
-- it. `on_changes` records the callbacks that were called, oldest first.
pub record State (Subsys Heap : Type 0) : Type 0 where
  pub settings : List UserSetting
  pub heap : Heap
  pub subsys : Subsys
  pub is_inited : Bool
  pub is_loaded : Bool
  pub global_on_change_cb : Option ℕ
  pub on_changes : List OnChange

module _ {Subsys Heap : Type 0} where
  abbrev pub deref : ℕ → M (State Subsys Heap) UserSetting
  deref p s = elim (get_elem? s.settings p) [ none ↦ fault bad_pointer | some us ↦ done (us, s) ]

  abbrev pub write : ℕ → (UserSetting → UserSetting) → State Subsys Heap → State Subsys Heap
  write p f s = record s { settings = modify s.settings p f }
