-- ===== src/Samples/Validation/Run.antt =====
-- What samples/validation/src/main.c does when the library starts.
use irnas_usersettings_lib.Base.{
  arith, get_elem?, ℕ, ◌≡◌, refl, ap, ◌∙◌, true, false, some, List, [], ◌∷◌, map, modify, done, ok,
  Bytes, bytes_eq, ◌>>=◌, pure, bind_done,
}
use irnas_usersettings_lib.Setting.{type_u8, UserSetting, ValidateCb}
use irnas_usersettings_lib.Platform.{Platform, PlatformLaws, codes}
use irnas_usersettings_lib.State.{State}
use irnas_usersettings_lib.SettingsList.{get_by_key, get_by_id, new_setting}
use irnas_usersettings_lib.SettingsList.Lookup.{keys, get_by_key-keys}
use irnas_usersettings_lib.Startup.Loaded.{Keeps, map-keys, from_storage-Keeps}
use irnas_usersettings_lib.Settings.Query.{
  set_validate_cb_with_key, set_validate_cb_with_id, validate_with_key,
}
use irnas_usersettings_lib.Startup.{declared, allocate_all}
use irnas_usersettings_lib.Samples.Start.{after_init, after_add, init_run, add_run, load_run}
use irnas_usersettings_lib.Samples.Settings.{t1_t11, t1_t11-IsWellFormed}
use irnas_usersettings_lib.Samples.{add_t1_t11}
use irnas_usersettings_lib.Settings.Init.{init, load}
use irnas_usersettings_lib.Settings.Restart.{LoadLaws, from_storage}
use irnas_usersettings_lib.Startup.Init.{StartLaws, started}
use irnas_usersettings_lib.ValidationHelpers.{validate_cb_range}
use irnas_usersettings_lib.Samples.Validation.{
  validation_main, check_t2, set_callbacks, prv_validate_t2, prv_validate_t3, prv_validate_t4,
  prv_validate_t5, prv_validate_t6, prv_validate_t7, prv_validate_t8, prv_validate_t9, validate_t10,
  validate_t11,
}

abbrev pub with_callback : ValidateCb → UserSetting → UserSetting
with_callback cb us = record us { validate_cb = some cb }

module _ (after : ℕ → ℕ) where
  -- The settings with their callbacks.
  abbrev pub checked_settings : List UserSetting
  checked_settings =
      let call =
        λ (p : ℕ) (cb : ValidateCb) (l : List UserSetting). modify l p (with_callback cb) in
      call 10 validate_t11 (
        call 9 validate_t10 (
          call 8 (prv_validate_t9 after) (
            call 7 (prv_validate_t8 after) (
              call 6 (prv_validate_t7 after) (
                call 5 (prv_validate_t6 after) (
                  call 4 (prv_validate_t5 after) (
                    call 3 (prv_validate_t4 after) (
                      call 2 (prv_validate_t3 after)
                        (call 1 (prv_validate_t2 after) (map declared t1_t11))))))))))

  t2_first : get_by_key (codes "t2") checked_settings ≡ some 1
  unfolding get_by_key bytes_eq
  t2_first = refl

module _ {Subsys Heap : Type 0} (after : ℕ → ℕ) where
  set_callbacks_run :
      (s : State Subsys Heap)
      → set_callbacks after (record s { settings = map declared t1_t11; is_inited = true })
        ≡ done (tt, record s { settings = checked_settings after; is_inited = true })
  unfolding set_callbacks set_validate_cb_with_key set_validate_cb_with_id get_by_key get_by_id
      bytes_eq
  set_callbacks_run s = refl

  -- The callback of t2 is asked, whatever has been loaded.
  validate_t2 :
      (f : UserSetting → UserSetting)
      → ((us : UserSetting) → Keeps us (f us))
      → (bs : Bytes) (s : State Subsys Heap) → s.is_inited ≡ true
      → s.settings ≡ map f (checked_settings after)
      → validate_with_key (codes "t2") bs s ≡ done (prv_validate_t2 after 2 (codes "t2") bs, s)
  unfolding validate_with_key
  validate_t2 f keeps bs s inited here =
      let found : get_by_key (codes "t2") s.settings ≡ some 1 =
        get_by_key-keys (codes "t2") s.settings (checked_settings after)
          (ap keys here ∙ map-keys f keeps (checked_settings after))
        ∙ t2_first after in
      let us = with_callback (prv_validate_t2 after) (new_setting 2 (codes "t2") type_u8 1) in
      let there : get_elem? s.settings 1 ≡ some (f us) = ap (λ l. get_elem? l 1) here in
      ground (
        arith,
        inited,
        found,
        there,
        (keeps us).same_id,
        (keeps us).same_key,
        (keeps us).same_callback,
      )

  check_t2_run :
      (f : UserSetting → UserSetting)
      → ((us : UserSetting) → Keeps us (f us))
      → (s : State Subsys Heap) → s.is_inited ≡ true
      → s.settings ≡ map f (checked_settings after)
      → check_t2 s ≡ done (tt, s)
  unfolding check_t2 validate_cb_range
  check_t2_run f keeps s inited here = ground (
    arith,
    validate_t2 f keeps (25 ∷ []) s inited here,
    validate_t2 f keeps (33 ∷ []) s inited here,
  )

module _ {Subsys Heap : Type 0} {z : Platform Subsys Heap} (laws : PlatformLaws z)
    (load_laws : LoadLaws laws) (start_laws : StartLaws laws) (after : ℕ → ℕ)
    (s : State Subsys Heap) (heap : Heap) where
  -- The program, from its first state, when the settings subsystem starts and the heap holds the
  -- eleven settings: its assertions about the values 25 and 33 of t2 hold, it returns 0, and each
  -- setting has its callback and what is stored of it, whatever stands in memory after the data.
  pub validation_main_lem :
      s.is_inited ≡ false
      → s.is_loaded ≡ false
      → (started z s.subsys).0 ≡ ok tt
      → allocate_all z t1_t11 s.heap ≡ some heap
      → validation_main after z s
        ≡ done (
          0,
          record s {
            settings = map (from_storage laws s.subsys) (checked_settings after);
            heap = heap;
            subsys = (started z s.subsys).1;
            is_inited = true;
            is_loaded = true;
          },
        )
  unfolding validation_main
  validation_main_lem fresh unloaded answers room =
      let f = from_storage laws s.subsys in
      let load_it = λ (u : Unit {0}). load z >>= λ _. check_t2 >>= λ _. pure {A = ℕ} 0 in
      bind_done (init z) s (λ _. add_t1_t11 z >>= λ _. set_callbacks after >>= load_it)
        (init_run laws load_laws start_laws s heap fresh unloaded answers room)
      ∙ bind_done (add_t1_t11 z) (after_init z s) (λ _. set_callbacks after >>= load_it)
          (add_run laws load_laws start_laws s heap fresh unloaded answers room)
      ∙ bind_done (set_callbacks after) (after_add z s heap) load_it
          (set_callbacks_run after (after_add z s heap))
      ∙ bind_done (load z) _ (λ _. check_t2 >>= λ _. pure 0)
          (load_run laws load_laws start_laws s heap fresh unloaded answers room
            (checked_settings after) s.global_on_change_cb t1_t11-IsWellFormed.distinct_keys)
      ∙ bind_done check_t2 _ (λ _. pure 0)
          (check_t2_run after f (from_storage-Keeps laws s.subsys) _ refl refl)
