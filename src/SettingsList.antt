-- ===== src/SettingsList.antt =====
-- library/user_settings/user_settings_list.c: adding settings, looking them up, iterating.
-- The list is prv_user_settings_list of `State`; the C loops over it are `iterate`.
pub mod Lookup
pub mod Adding
pub mod Iteration
pub mod Free
use irnas_usersettings_lib.Base.{
  ℕ, zero, suc, Bool, true, false, Option, none, some, List, [], ◌∷◌, ◌++◌, ◌&&◌, length, replicate,
  find_index, M, Bytes, bytes_eq, ltb, ◌==◌, if◌then◌else◌, Fault, assertion, no_fuel, done, fault,
  ◌>>=◌, ◌>>◌, pure, stop, gets, update, assert,
}
use irnas_usersettings_lib.Setting.{
  UserSetting, UserSettingType, type_bool, type_u8, type_u16, type_u32, type_u64, type_i8, type_i16,
  type_i32, type_i64, type_str, type_bytes, is_sized_type,
}
use irnas_usersettings_lib.Platform.{Platform}
use irnas_usersettings_lib.State.{State}

unfoldable pub get_by_key : Bytes → List UserSetting → Option ℕ
get_by_key key = find_index (λ us. bytes_eq key us.key)

unfoldable pub get_by_id : ℕ → List UserSetting → Option ℕ
get_by_id id = find_index (λ us. id == us.id)

abbrev pub is_null : Option ℕ → Bool
is_null none = true
is_null (some p) = false

-- A new setting: all zero but what the caller gives.
abbrev pub new_setting : ℕ → Bytes → UserSettingType → ℕ → UserSetting
new_setting id key type size = record {
  id = id;
  key = key;
  setting_type = type;
  max_size = size;
  value = replicate size 0;
  value_len = 0;
  is_set = false;
  default_value = replicate size 0;
  default_value_len = 0;
  default_is_set = false;
  has_changed_recently = false;
  on_change_cb = none;
  validate_cb = none;
}

module _ {Subsys Heap : Type 0} where
  unfoldable pub list_init : M (State Subsys Heap) (Unit {0})
  list_init = update (λ s. record s { settings = [] })

  unfoldable pub prv_type_to_size : UserSettingType → M (State Subsys Heap) ℕ
  prv_type_to_size type_bool = pure 1
  prv_type_to_size type_u8 = pure 1
  prv_type_to_size type_i8 = pure 1
  prv_type_to_size type_u16 = pure 2
  prv_type_to_size type_i16 = pure 2
  prv_type_to_size type_u32 = pure 4
  prv_type_to_size type_i32 = pure 4
  prv_type_to_size type_u64 = pure 8
  prv_type_to_size type_i64 = pure 8
  prv_type_to_size type_str = stop assertion
  prv_type_to_size type_bytes = stop assertion

module _ {Subsys Heap : Type 0} (z : Platform Subsys Heap) where
  -- k_heap_aligned_alloc and the assertion that it gave memory
  unfoldable pub alloc : ℕ → M (State Subsys Heap) (Unit {0})
  alloc size s = elim (z.k_heap_aligned_alloc size s.heap) [
    | none ↦ fault assertion
    | some heap ↦ done (tt, record s { heap = heap })
  ]

  unfoldable pub prv_user_settings_list_add :
      ℕ → Bytes → UserSettingType → ℕ → M (State Subsys Heap) ℕ
  unfolding get_by_id get_by_key alloc
  prv_user_settings_list_add id key type size = do
    by_id ← gets (λ s. get_by_id id s.settings)
    assert (is_null by_id)
    by_key ← gets (λ s. get_by_key key s.settings)
    assert (is_null by_key)
    alloc z.sizeof_user_setting
    alloc size
    alloc size
    us ← gets (λ s. length s.settings)
    update (λ s. record s { settings = s.settings ++ new_setting id key type size ∷ [] })
    pure us

  unfoldable pub add_fixed_size : ℕ → Bytes → UserSettingType → M (State Subsys Heap) ℕ
  add_fixed_size id key type = do
    size ← prv_type_to_size type
    prv_user_settings_list_add id key type size

  unfoldable pub add_variable_size : ℕ → Bytes → UserSettingType → ℕ → M (State Subsys Heap) ℕ
  add_variable_size id key type size = do
    assert (is_sized_type type)
    prv_user_settings_list_add id key type size

-- struct user_settings_iter_ctx
pub record IterCtx : Type 0 where
  pub iter_list_node : Option ℕ
  pub iter_start : Bool

abbrev pub iter_start : IterCtx
iter_start = record { iter_list_node = none; iter_start = true }

abbrev peek_head : List UserSetting → Option ℕ
peek_head [] = none
peek_head (us ∷ l) = some 0

abbrev peek_next : Option ℕ → List UserSetting → Option ℕ
peek_next none l = none
peek_next (some p) l = if ltb (suc p) (length l) then some (suc p) else none

unfoldable pub iter_next : IterCtx → List UserSetting → Option ℕ × IterCtx
iter_next ctx l =
    if is_null ctx.iter_list_node && ctx.iter_start
    then (peek_head l, record { iter_list_node = peek_head l; iter_start = false })
    else (
      peek_next ctx.iter_list_node l,
      record ctx { iter_list_node = peek_next ctx.iter_list_node l },
    )

module _ {Subsys Heap A : Type 0} where
  -- `some a` is a `return a` in the body of a loop.
  abbrev pub unless_returned :
      Option A → M (State Subsys Heap) (Option A) → M (State Subsys Heap) (Option A)
  unless_returned (some a) rest = pure (some a)
  unless_returned none rest = rest

  -- while ((setting = user_settings_list_iter_next(&ctx)) != NULL) { body }
  unfoldable pub iterate :
      ℕ → IterCtx → (ℕ → M (State Subsys Heap) (Option A)) → M (State Subsys Heap) (Option A)
  iterate zero ctx body s = fault no_fuel
  iterate (suc fuel) ctx body s =
      let (us, ctx') = iter_next ctx s.settings in
      elim us [
        | none ↦ done (none, s)
        | some p ↦ (body p >>= λ r. unless_returned r (iterate fuel ctx' body)) s
      ]

  -- The loop from user_settings_list_iter_start, with a round for each setting and one for the end.
  unfoldable pub for_each :
      (ℕ → M (State Subsys Heap) (Option A)) → M (State Subsys Heap) (Option A)
  unfolding iterate
  for_each body s = iterate (suc (length s.settings)) iter_start body s
