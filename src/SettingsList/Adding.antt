-- ===== src/SettingsList/Adding.antt =====
-- What prv_user_settings_list_add of library/user_settings/user_settings_list.c guarantees.
use mathlib.Core.List.{map-append}
use irnas_usersettings_lib.Base.{
  ℕ, ◌<◌, ◌^◌, ◌≡◌, ◌⊎◌, refl, none, some, List, [], ◌∷◌, ◌++◌, arith, length, length-replicate,
  get_elem?, All-append, Distinct-snoc, Bytes, bytes_eq, bytes_eq_refl, ◌==◌, find_index-append,
  done, fault, assertion, get_elem?-append_left, get_elem?-append_self,
}
use irnas_usersettings_lib.Setting.{UserSetting, UserSettingType, IsSound}
use irnas_usersettings_lib.Platform.{Platform}
use irnas_usersettings_lib.State.{State}
use irnas_usersettings_lib.SettingsList.{
  get_by_key, get_by_id, new_setting, prv_user_settings_list_add,
}
use irnas_usersettings_lib.SettingsList.Lookup.{
  IsWellFormed, ids, keys, get_by_key-none, get_by_id-none,
}

module _ (id : ℕ) (key : Bytes) (type : UserSettingType) (size : ℕ) where
  new_setting-IsSound : id < 2 ^ 16 → IsSound (new_setting id key type size)
  new_setting-IsSound h = record {
    id_fits = h;
    block = length-replicate size 0;
    default_block = length-replicate size 0;
    fits = omega arith;
    default_fits = omega arith;
    unset_is_empty = λ _. refl;
    no_default_is_empty = λ _. refl;
  }

  append-IsWellFormed :
      (l : List UserSetting)
      → id < 2 ^ 16
      → get_by_id id l ≡ none
      → get_by_key key l ≡ none
      → IsWellFormed l
      → IsWellFormed (l ++ new_setting id key type size ∷ [])
  append-IsWellFormed l h no_id no_key w = record {
    distinct_ids =
        rw (map-append (λ (us : UserSetting). us.id) l (new_setting id key type size ∷ []))
          (Distinct-snoc (ids l) id (get_by_id-none id l no_id) w.distinct_ids);
    distinct_keys =
        rw (map-append (λ (us : UserSetting). us.key) l (new_setting id key type size ∷ []))
          (Distinct-snoc (keys l) key (get_by_key-none key l no_key) w.distinct_keys);
    sound = All-append IsSound l _ w.sound (new_setting-IsSound h, tt);
  }

-- What a call that added the setting at position p left behind.
pub record Added {Subsys Heap : Type 0} (id : ℕ) (key : Bytes) (type : UserSettingType) (size : ℕ)
    (s : State Subsys Heap) (p : ℕ) (s' : State Subsys Heap) : Type 0 where
  pub at_end : p ≡ length s.settings
  pub here : get_elem? s'.settings p ≡ some (new_setting id key type size)
  pub kept : (q : ℕ) → q < p → get_elem? s'.settings q ≡ get_elem? s.settings q
  pub by_id : get_by_id id s'.settings ≡ some p
  pub by_key : get_by_key key s'.settings ≡ some p
  pub well_formed : IsWellFormed s'.settings

module _ {Subsys Heap : Type 0} (z : Platform Subsys Heap) where
  -- It refuses, by an assertion, an ID or a key that is taken already.
  pub add_taken :
      (id : ℕ) (key : Bytes) (type : UserSettingType) (size q : ℕ) (s : State Subsys Heap)
      → (get_by_id id s.settings ≡ some q) ⊎ (get_by_key key s.settings ≡ some q)
      → prv_user_settings_list_add z id key type size s ≡ fault assertion
  unfolding prv_user_settings_list_add
  add_taken id key type size q s h = ground arith

  pub add_inversion :
      (id : ℕ) (key : Bytes) (type : UserSettingType) (size p : ℕ) (s s' : State Subsys Heap)
      → prv_user_settings_list_add z id key type size s ≡ done (p, s')
      → (get_by_id id s.settings ≡ none)
        × (get_by_key key s.settings ≡ none)
        × (p ≡ length s.settings)
        × (s'.settings ≡ s.settings ++ new_setting id key type size ∷ [])
  unfolding prv_user_settings_list_add
  add_inversion id key type size p s s' h = ground arith

  -- With a new ID and key and memory for the setting and its two blocks, the call returns the
  -- position after the last setting; there stands the new setting, all others are where they were,
  -- both lookups find it, and the list is well formed if it was.
  pub add-Added :
      (id : ℕ) (key : Bytes) (type : UserSettingType) (size : ℕ) (s : State Subsys Heap)
      (h₁ h₂ h₃ : Heap)
      → IsWellFormed s.settings
      → id < 2 ^ 16
      → get_by_id id s.settings ≡ none
      → get_by_key key s.settings ≡ none
      → z.k_heap_aligned_alloc z.sizeof_user_setting s.heap ≡ some h₁
      → z.k_heap_aligned_alloc size h₁ ≡ some h₂
      → z.k_heap_aligned_alloc size h₂ ≡ some h₃
      → (s' : State Subsys Heap) × (prv_user_settings_list_add z id key type size s
          ≡ done (length s.settings, s'))
        × Added id key type size s (length s.settings) s'
  unfolding prv_user_settings_list_add
  add-Added id key type size s h₁ h₂ h₃ w fits no_id no_key a₁ a₂ a₃ = (
    record s { heap = h₃; settings = s.settings ++ new_setting id key type size ∷ [] },
    ground arith,
    record {
      at_end = refl;
      here = get_elem?-append_self s.settings (new_setting id key type size);
      kept = λ q lt. get_elem?-append_left s.settings _ q lt;
      by_id =
          find_index-append (λ us. id == us.id) s.settings (new_setting id key type size) no_id
            (ground arith);
      by_key =
          find_index-append (λ us. bytes_eq key us.key) s.settings (new_setting id key type size)
            no_key (bytes_eq_refl key);
      well_formed = append-IsWellFormed id key type size s.settings fits no_id no_key w;
    },
  )

  -- Without memory for one of the three blocks it stops at an assertion.
  pub add_no_memory :
      (id : ℕ) (key : Bytes) (type : UserSettingType) (size : ℕ) (s : State Subsys Heap)
      (heap : Heap)
      → (z.k_heap_aligned_alloc z.sizeof_user_setting s.heap ≡ none)
        ⊎ ((z.k_heap_aligned_alloc z.sizeof_user_setting s.heap ≡ some heap)
            × (z.k_heap_aligned_alloc size heap ≡ none))
      → prv_user_settings_list_add z id key type size s ≡ fault assertion
  unfolding prv_user_settings_list_add
  add_no_memory id key type size s heap h = ground arith
