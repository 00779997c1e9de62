-- ===== src/Settings/Iter.antt =====
-- The iterator functions of library/user_settings/user_settings.c.
use irnas_usersettings_lib.Base.{
  ℕ, zero, suc, Bool, true, false, Option, none, some, List, length, get_elem?, M, Bytes,
  if◌then◌else◌, Outcome, done, fault, bad_pointer, no_fuel, ◌>>=◌, pure,
}
use irnas_usersettings_lib.Setting.{UserSetting}
use irnas_usersettings_lib.State.{State, deref}
use irnas_usersettings_lib.SettingsList.{IterCtx, iter_next, for_each}

-- `*key` and `*id` of a setting
abbrev pub key_and_id : UserSetting → Bytes × ℕ
key_and_id us = (us.key, us.id)

-- `some` is `true` with `*key` and `*id` written, `none` is `false`.
unfoldable pub next : IterCtx → List UserSetting → Outcome (Option (Bytes × ℕ) × IterCtx)
unfolding iter_next
next ctx l =
    let (node, ctx') = iter_next ctx l in
    elim node [
      | none ↦ done (none, ctx')
      | some p ↦ elim (get_elem? l p) [
        | none ↦ fault bad_pointer
        | some us ↦ done (some (key_and_id us), ctx')
      ]
    ]

-- The `while` of user_settings_iter_next_changed.
unfoldable pub next_changed_loop :
    ℕ → IterCtx → List UserSetting → Outcome (Option (Bytes × ℕ) × IterCtx)
next_changed_loop zero ctx l = fault no_fuel
next_changed_loop (suc fuel) ctx l =
    let (node, ctx') = iter_next ctx l in
    elim node [
      | none ↦ done (none, ctx')
      | some p ↦ elim (get_elem? l p) [
        | none ↦ fault bad_pointer
        | some us ↦ elim us.has_changed_recently [
          | true ↦ done (some (key_and_id us), ctx')
          | false ↦ next_changed_loop fuel ctx' l
        ]
      ]
    ]

-- A round for each setting, and one for the end.
unfoldable pub next_changed : IterCtx → List UserSetting → Outcome (Option (Bytes × ℕ) × IterCtx)
unfolding next_changed_loop
next_changed ctx l = next_changed_loop (suc (length l)) ctx l

-- `return false` after the loop.
abbrev or_false : Option Bool → Bool
or_false none = false
or_false (some b) = b

module _ {Subsys Heap : Type 0} where
  -- `return true` at the first setting that has changed.
  unfoldable pub stop_at_changed : ℕ → M (State Subsys Heap) (Option Bool)
  stop_at_changed p = do us ← deref p; pure (if us.has_changed_recently then some true else none)

  unfoldable pub any_changed : M (State Subsys Heap) Bool
  unfolding stop_at_changed for_each
  any_changed = do returned ← for_each stop_at_changed; pure (or_false returned)
