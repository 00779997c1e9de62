-- ===== src/SettingsList/Free.antt =====
-- user_settings_list_free of library/user_settings/user_settings_list.c.
use irnas_usersettings_lib.Base.{
  ℕ, zero, suc, ◌≡◌, refl, Bool, false, ◌||◌, Option, none, some, List, [], ◌∷◌, length, M, ltb,
  ◌==◌, if◌then◌else◌, bad_pointer, no_fuel, done, fault, ◌>>=◌, ◌>>◌, pure, stop, gets,
}
use irnas_usersettings_lib.Setting.{UserSetting}
use irnas_usersettings_lib.State.{State, deref}
use irnas_usersettings_lib.SettingsList.{list_init}

-- The blocks that prv_user_settings_list_add allocates for the setting at a position: what `data`
-- and `default_data` point to, and the struct user_setting itself.
pub data Block : Type 0 where
  data_of default_data_of setting_of : ℕ → Block

abbrev same_block : Block → Block → Bool
same_block (data_of p) (data_of q) = p == q
same_block (default_data_of p) (default_data_of q) = p == q
same_block (setting_of p) (setting_of q) = p == q
same_block _ _ = false

abbrev is_freed : Block → List Block → Bool
is_freed block [] = false
is_freed block (b ∷ freed) = same_block block b || is_freed block freed

-- The library, and the blocks that were given back to its heap, the last one first.
pub record Freeing (Subsys Heap : Type 0) : Type 0 where
  pub library : State Subsys Heap
  pub freed : List Block

abbrev first_node : List UserSetting → Option ℕ
first_node [] = none
first_node (us ∷ l) = some 0

module _ {Subsys Heap : Type 0} where
  -- A read in the struct user_setting at a position, which must not have been freed.
  unfoldable pub read_setting : ℕ → M (Freeing Subsys Heap) UserSetting
  read_setting p m =
      if is_freed (setting_of p) m.freed
      then fault bad_pointer
      else elim (deref p m.library) [ done (us, s) ↦ done (us, m) | fault f ↦ fault f ]

  -- The `next` pointer in the list_node of a setting.
  unfoldable pub next_node : ℕ → M (Freeing Subsys Heap) (Option ℕ)
  unfolding read_setting
  next_node p = do
    read_setting p
    l ← gets (λ m. m.library.settings)
    pure (if ltb (suc p) (length l) then some (suc p) else none)

-- `k_heap_free` is the call of Zephyr. A block must not be freed twice.
module _ {Subsys Heap : Type 0} (k_heap_free : Block → Heap → Heap) where
  unfoldable pub free_block : Block → M (Freeing Subsys Heap) (Unit {0})
  free_block block m =
      if is_freed block m.freed
      then fault bad_pointer
      else done (
        tt,
        record {
          library = record m.library { heap = k_heap_free block m.library.heap };
          freed = block ∷ m.freed;
        },
      )

  -- The body of the loop.
  unfoldable pub free_setting : ℕ → M (Freeing Subsys Heap) (Unit {0})
  unfolding free_block read_setting
  free_setting p = do
    read_setting p
    free_block (data_of p)
    read_setting p
    free_block (default_data_of p)
    free_block (setting_of p)

  -- SYS_SLIST_FOR_EACH_CONTAINER reads the `next` pointer of a node after the body of the loop.
  unfoldable pub free_loop : ℕ → Option ℕ → M (Freeing Subsys Heap) (Unit {0})
  unfolding free_setting next_node
  free_loop fuel none = pure tt
  free_loop zero (some p) = stop no_fuel
  free_loop (suc fuel) (some p) = do free_setting p; node ← next_node p; free_loop fuel node

  -- A round for each setting.
  unfoldable pub list_free : M (State Subsys Heap) (Unit {0})
  unfolding free_loop
  list_free s =
      elim (free_loop (length s.settings) (first_node s.settings)
        (record { library = s; freed = [] })) [
          | done (t, m) ↦ list_init m.library
          | fault f ↦ fault f
        ]

  -- user_settings_list_free does nothing to an empty list. Of any other list, the body of the loop
  -- frees the three blocks of the first setting, each once, and ends; the pointer to the next
  -- setting is then read in a block that is freed, and user_settings_list_free ends in that fault.
  pub list_free_dangles :
      (s : State Subsys Heap) (us : UserSetting) (l : List UserSetting)
      → let full = record s { settings = us ∷ l } in
        (list_free (record s { settings = [] }) ≡ done (tt, record s { settings = [] }))
        × ((m : Freeing Subsys Heap) × (free_setting 0 (record { library = full; freed = [] })
              ≡ done (tt, m))
            × (m.freed ≡ setting_of 0 ∷ default_data_of 0 ∷ data_of 0 ∷ [])
            × (next_node 0 m ≡ fault bad_pointer))
        × (list_free full ≡ fault bad_pointer)
  unfolding list_free list_init
  list_free_dangles s us l = (refl, (_, refl, refl, refl), refl)
