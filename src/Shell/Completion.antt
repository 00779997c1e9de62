-- ===== src/Shell/Completion.antt =====
-- The completion of keys in library/user_settings/user_settings_shell.c.
use irnas_usersettings_lib.Base.{
  ℕ, zero, suc, ◌+◌, ◌≡◌, ◌∙◌, refl, ap, arith, Option, none, some, List, [], ◌∷◌, length, drop,
  drop_cons, get_elem?, Bytes, ltb, ◌==◌, if◌then◌else◌, Outcome, done, fault, bad_pointer,
}
use irnas_usersettings_lib.Setting.{UserSetting}
use irnas_usersettings_lib.SettingsList.Lookup.{keys}
use irnas_usersettings_lib.Settings.Changed.{before, iter_next-before, iter_next_done}
use irnas_usersettings_lib.Shell.{us_by_idx_loop, prv_get_us_by_idx, prv_shell_key_get}

-- What is found from a position on, with the settings that are left.
abbrev position : List UserSetting → ℕ → ℕ → Option ℕ
position [] c idx = none
position (us ∷ rest) c idx = if idx == c then some c else position rest (suc c) idx

loop-position :
    (rest l : List UserSetting) (c idx : ℕ)
    → drop c l ≡ rest
    → us_by_idx_loop (suc (length rest)) idx c (before c) l ≡ done (position rest c idx)
unfolding us_by_idx_loop
loop-position [] l c idx e = ground (arith, iter_next_done c l e)
loop-position (us ∷ rest) l c idx e =
    ground (arith, iter_next-before c l e, loop-position rest l (suc c) idx (drop_cons c l e).1)

position_lem :
    (l : List UserSetting) (c k idx : ℕ)
    → idx ≡ c + k
    → position l c idx ≡ (if ltb k (length l) then some idx else none)
position_lem [] c k idx e = ground arith
position_lem (us ∷ l) c zero idx e = ground arith
position_lem (us ∷ l) c (suc k) idx e = ground (arith, position_lem l (suc c) k idx (omega arith))

-- The key of the setting that was found.
abbrev key_of : List UserSetting → Outcome (Option ℕ) → Outcome (Option Bytes)
key_of l (fault f) = fault f
key_of l (done none) = done none
key_of l (done (some p)) = elim (get_elem? l p) [
  | none ↦ fault bad_pointer
  | some us ↦ done (some us.key)
]

key_of-position :
    (rest l : List UserSetting) (c k idx : ℕ)
    → drop c l ≡ rest
    → idx ≡ c + k
    → key_of l (done (position rest c idx)) ≡ done (get_elem? (keys rest) k)
key_of-position [] l c k idx e same = refl
key_of-position (us ∷ rest) l c zero idx e same = ground (arith, drop_cons c l e)
key_of-position (us ∷ rest) l c (suc k) idx e same =
    ground (arith, key_of-position rest l (suc c) k idx (drop_cons c l e).1 (omega arith))

found_at : (idx : ℕ) (l : List UserSetting) → prv_get_us_by_idx idx l ≡ done (position l 0 idx)
unfolding prv_get_us_by_idx
found_at idx l = loop-position l l 0 idx refl

key_found :
    (idx : ℕ) (l : List UserSetting) → prv_shell_key_get idx l ≡ key_of l (prv_get_us_by_idx idx l)
unfolding prv_shell_key_get
key_found idx l = refl

-- prv_get_us_by_idx returns the setting at the position of the list that it is given, and NULL
-- behind the end; prv_shell_key_get, which completes keys, gives the key of that setting, and NULL
-- behind the end.
pub us_by_idx_lem :
    (idx : ℕ) (l : List UserSetting)
    → (prv_get_us_by_idx idx l ≡ done (if ltb idx (length l) then some idx else none))
      × (prv_shell_key_get idx l ≡ done (get_elem? (keys l) idx))
us_by_idx_lem idx l = (
  found_at idx l ∙ ap done (position_lem l 0 idx idx (omega arith)),
  key_found idx l
      ∙ ap (key_of l) (found_at idx l)
      ∙ key_of-position l l 0 idx idx refl (omega arith),
)
