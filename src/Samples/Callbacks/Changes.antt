-- ===== src/Samples/Callbacks/Changes.antt =====
-- What the on_change callbacks of samples/callbacks/src/main.c read when
-- library/user_settings/user_settings.c has written a new value.
use irnas_usersettings_lib.Base.{
  M, Bool-cases, inl, inr, ℕ, ◌≤◌, ◌≡◌, refl, subst, arith, true, some, ◌==◌, if◌then◌else◌, [],
  ◌∷◌, ◌++◌, length, drop, get_elem?, get_elem?-modify_self, All-get, Bytes, done,
}
use irnas_usersettings_lib.Memory.{c_string}
use irnas_usersettings_lib.Setting.{UserSetting, IsSound}
use irnas_usersettings_lib.Platform.{value_sh}
use irnas_usersettings_lib.State.{State, write}
use irnas_usersettings_lib.SettingsList.Lookup.{IsWellFormed, modify-IsWellFormed, get_by_id_self}
use irnas_usersettings_lib.Settings.Handlers.{with_value}
use irnas_usersettings_lib.Settings.Query.{prv_user_setting_get, get_with_id}
use irnas_usersettings_lib.Settings.Ready.{change-IsSound}
use irnas_usersettings_lib.Samples.Callbacks.{prv_on_change_t1, prv_on_change_t2_t10}

module _ {Subsys Heap : Type 0} (p : ℕ) (us : UserSetting) (b : ℕ) (bs : Bytes)
    (s : State Subsys Heap) (loaded : s.is_loaded ≡ true) (w : IsWellFormed s.settings)
    (here : get_elem? s.settings p ≡ some us) (fits : length (b ∷ bs) ≤ us.max_size) where
  -- When the callbacks are called.
  abbrev pub with_new_value : State Subsys Heap
  with_new_value = write p (with_value (b ∷ bs)) s

  -- user_settings_get_with_id gives the block and the length of the new value.
  abbrev Gives : ℕ → Type 0
  Gives id =
      get_with_id id with_new_value
      ≡ done (some (b ∷ (bs ++ drop (length (b ∷ bs)) us.value), length (b ∷ bs)), with_new_value)

  get_new_value : Gives us.id
  unfolding get_with_id prv_user_setting_get
  get_new_value =
      let us' = with_value (b ∷ bs) us in
      let here' = get_elem?-modify_self s.settings p (with_value (b ∷ bs)) here in
      let sound =
        change-IsSound value_sh (b ∷ bs) us fits (All-get IsSound s.settings p w.sound here) in
      let w' =
        modify-IsWellFormed s.settings p (with_value (b ∷ bs)) here (λ a. refl) (λ a. refl) sound
          w in
      ground (arith, loaded, here', get_by_id_self p us' w' here')

  -- The callback that is registered for an ID, if one is.
  abbrev pub change_callback : ℕ → M (State Subsys Heap) Bytes
  change_callback id =
      if id == 1 then prv_on_change_t1 id us.key else prv_on_change_t2_t10 id us.key

  -- The bytes of the new value that it prints.
  abbrev pub printed_bytes : ℕ → Bytes → Bytes
  printed_bytes id text =
      if id == 1 then b ∷ [] else if id == 2 then b ∷ [] else if id == 10 then text else []

  callback_at :
      (id : ℕ) (text : Bytes)
      → c_string (b ∷ (bs ++ drop (length (b ∷ bs)) us.value)) ≡ some text
      → Gives id
      → change_callback id with_new_value ≡ done (printed_bytes id text, with_new_value)
  unfolding prv_on_change_t1 prv_on_change_t2_t10
  callback_at id text ends got = elim (Bool-cases (id == 1)) [
    | inl e ↦
        let one : id ≡ 1 = ground arith in let got' = subst Gives one got in ground (arith, e, got')
    | inr ne ↦ elim (Bool-cases (id == 2)) [
      | inl e ↦
          let two : id ≡ 2 = ground arith in
          let got' = subst Gives two got in ground (arith, ne, e, got')
      | inr ne' ↦ elim (Bool-cases (id == 10)) [
        | inl e ↦
            let ten : id ≡ 10 = ground arith in
            let got' = subst Gives ten got in ground (arith, ne, ne', e, got', ends)
        | inr ne'' ↦ ground (arith, ne, ne', ne'')
      ]
    ]
  ]

  -- In a well-formed, loaded library, when a new value that fits has been written to a setting and
  -- the callback of the program for its ID is called: it returns and changes nothing; for the IDs 1
  -- and 2 it reads the first byte of the new value, for the ID 10 the string that the value starts
  -- with, if a zero byte ends it, and for any other ID nothing.
  pub change_callback_reads :
      (text : Bytes)
      → c_string (b ∷ (bs ++ drop (length (b ∷ bs)) us.value)) ≡ some text
      → change_callback us.id with_new_value ≡ done (printed_bytes us.id text, with_new_value)
  change_callback_reads text ends = callback_at us.id text ends get_new_value
