-- ===== src/Json/Export.antt =====
-- What user_settings_get_all_json and user_settings_get_changed_json of
-- library/user_settings/user_settings_json.c build.
use mathlib.Core.List.{append_assoc, append-nil}
use irnas_usersettings_lib.Base.{
  ◌≡◌, ◌∙◌, sym, ap, arith, Bool, true, false, none, List, [], ◌∷◌, ◌++◌, map, All, if◌then◌else◌,
  ok, done, M, Outcome, fault, out_of_bounds, ◌>>=◌, pure, bind_done, bind_fault, Bool-cases, inl,
  inr,
}
use irnas_usersettings_lib.Setting.{UserSetting, type_str}
use irnas_usersettings_lib.Memory.{c_string}
use irnas_usersettings_lib.Walk.{in_order, walk-in_order}
use irnas_usersettings_lib.Settings.Changed.{changed_only}
use irnas_usersettings_lib.Json.{
  JsonItem, CJson, Building, json_of_type, prv_json_from_setting, export_each, export_changed,
  export_with, get_all_json, get_changed_json,
}
use irnas_usersettings_lib.Json.Values.{exported, IsReadable, HasMemory, export_each-exported}
use irnas_usersettings_lib.Json.Plain.{FitsInt, as_json, exported-as_json, exported_changed-as_json}

module _ {Heap : Type 0} (c : CJson Heap) (m : HasMemory c) where
  abbrev built : Heap → List JsonItem → Outcome (Unit {0} × Building Heap)
  built h o = done (tt, record { heap = h; object = o })

  snoc :
      (l : List JsonItem) (item : JsonItem) (items : List JsonItem) (h : Heap)
      → built h ((l ++ item ∷ []) ++ items) ≡ built h (l ++ item ∷ items)
  snoc l item items h = ap (built h) (append_assoc l (item ∷ []) items)

  none_added : (b : Building Heap) → built b.heap b.object ≡ built b.heap (b.object ++ [])
  none_added b = ap (built b.heap) (sym (append-nil b.object))

  each_in_order :
      (l : List UserSetting) (b : Building Heap)
      → All IsReadable l
      → (h : Heap) × (in_order (export_each c) l b
          ≡ done (tt, record { heap = h; object = b.object ++ map exported l }))
  each_in_order [] b t = (b.heap, none_added b)
  each_in_order (us ∷ l) b t =
      let (h, run) = export_each-exported c m us b t.0 in
      let (h', run') =
        each_in_order l (record { heap = h; object = b.object ++ exported us ∷ [] }) t.1 in
      (
        h',
        bind_done (export_each c us) b (λ _. in_order (export_each c) l) run
            ∙ run'
            ∙ snoc b.object (exported us) (map exported l) h',
      )

  changed_in_order :
      (l : List UserSetting) (b : Building Heap)
      → All IsReadable l
      → (h : Heap) × (in_order (export_changed c) l b
          ≡ done (tt, record { heap = h; object = b.object ++ map exported (changed_only l) }))
  unfolding export_changed
  changed_in_order [] b t = (b.heap, none_added b)
  changed_in_order (us ∷ l) b t = elim (Bool-cases us.has_changed_recently) [
    | inl up ↦
        let (h, run) = export_each-exported c m us b t.0 in
        let (h', run') =
          changed_in_order l (record { heap = h; object = b.object ++ exported us ∷ [] }) t.1 in
        (
          h',
          ap
                (λ f.
                  ((if f then export_each c us else pure tt) >>= λ _. in_order (export_changed c) l)
                    b)
                up
              ∙ bind_done (export_each c us) b (λ _. in_order (export_changed c) l) run
              ∙ run'
              ∙ snoc b.object (exported us) (map exported (changed_only l)) h'
              ∙ kept us l b h' true (sym up),
        )
    | inr down ↦
        let (h', run') = changed_in_order l b t.1 in
        (
          h',
          ap
                (λ f.
                  ((if f then export_each c us else pure tt) >>= λ _. in_order (export_changed c) l)
                    b)
                down
              ∙ run'
              ∙ kept us l b h' false (sym down),
        )
  ]
    where
      kept :
          (us : UserSetting) (l : List UserSetting) (b : Building Heap) (h : Heap) (f : Bool)
          → f ≡ us.has_changed_recently
          → built h (b.object ++ map exported (if f then us ∷ changed_only l else changed_only l))
            ≡ built h (b.object ++ map exported (changed_only (us ∷ l)))
      kept us l b h f e =
          ap
            (λ g.
              built h
                (b.object ++ map exported (if g then us ∷ changed_only l else changed_only l)))
            e

  export_with-in_order :
      (body : UserSetting → M (Building Heap) (Unit {0})) (l : List UserSetting)
      (items : List JsonItem) (b : Building Heap)
      → ((h : Heap)
          → (h' : Heap) × (in_order body l (record { heap = h; object = [] })
              ≡ done (tt, record { heap = h'; object = items })))
      → (h' : Heap) × (export_with c body l b
          ≡ done (ok items, record { heap = h'; object = items }))
  unfolding export_with
  export_with-in_order body l items b each =
      let h = (c.create_object b.heap).1 in
      let (h', run) = each h in
      (
        h',
        ground (
          arith,
          m.object_lem b.heap,
          walk-in_order body l (record { heap = h; object = [] }),
          run,
        ),
      )

  -- The object of all settings.
  pub get_all_json_lem :
      (l : List UserSetting) (b : Building Heap)
      → All IsReadable l
      → (h : Heap) × (get_all_json c l b
          ≡ done (ok (map exported l), record { heap = h; object = map exported l }))
  unfolding get_all_json
  get_all_json_lem l b t =
      export_with-in_order (export_each c) l (map exported l) b
        (λ h. each_in_order l (record { heap = h; object = [] }) t)

  -- The same for the settings whose changed flag is up.
  pub get_changed_json_lem :
      (l : List UserSetting) (b : Building Heap)
      → All IsReadable l
      → (h : Heap) × (get_changed_json c l b
          ≡ done (
            ok (map exported (changed_only l)),
            record { heap = h; object = map exported (changed_only l) },
          ))
  unfolding get_changed_json
  get_changed_json_lem l b t =
      export_with-in_order (export_changed c) l (map exported (changed_only l)) b
        (λ h. changed_in_order l (record { heap = h; object = [] }) t)

  -- Where cJSON has memory, every setting has the bytes that its type reads (for a string, a zero
  -- that ends it), and every number fits into int: user_settings_get_all_json returns 0, and the
  -- object has one item for each setting, in the order of the list, with its key and its value,
  -- which is true or false, the number that the bytes are, the string, or the bytes as hexadecimal
  -- text; user_settings_get_changed_json does so for the settings whose changed flag is up.
  pub get_json_lem :
      (l : List UserSetting) (b : Building Heap)
      → All IsReadable l
      → All FitsInt l
      → ((h : Heap) × (get_all_json c l b
            ≡ done (ok (map as_json l), record { heap = h; object = map as_json l })))
        × ((h : Heap) × (get_changed_json c l b
              ≡ done (
                ok (map as_json (changed_only l)),
                record { heap = h; object = map as_json (changed_only l) },
              )))
  get_json_lem l b t fits =
      let (h, run) = get_all_json_lem l b t in
      let (h', run') = get_changed_json_lem l b t in
      (
        (h, run ∙ ap (λ o. done (ok o, record { heap = h; object = o })) (exported-as_json l fits)),
        (
          h',
          run'
              ∙ ap (λ o. done (ok o, record { heap = h'; object = o }))
                  (exported_changed-as_json l fits),
        ),
      )

  in_order-overrun :
      (front : List UserSetting) (us : UserSetting) (back : List UserSetting) (b : Building Heap)
      → All IsReadable front
      → us.setting_type ≡ type_str
      → c_string us.value ≡ none
      → in_order (export_each c) (front ++ us ∷ back) b ≡ fault out_of_bounds
  unfolding export_each prv_json_from_setting json_of_type
  in_order-overrun [] us back b t is_str unterminated =
      bind_fault (export_each c us) b (λ _. in_order (export_each c) back)
        (ground (arith, is_str, unterminated))
  in_order-overrun (x ∷ front) us back b t is_str unterminated =
      let (h, run) = export_each-exported c m x b t.0 in
      bind_done (export_each c x) b (λ _. in_order (export_each c) (front ++ us ∷ back)) run
      ∙ in_order-overrun front us back _ t.1 is_str unterminated

  -- Where cJSON has memory: a string setting whose block has no zero byte, behind settings that can
  -- be read, makes user_settings_get_all_json read past the end of its block.
  pub get_all_json_overrun :
      (front : List UserSetting) (us : UserSetting) (back : List UserSetting) (b : Building Heap)
      → All IsReadable front
      → us.setting_type ≡ type_str
      → c_string us.value ≡ none
      → get_all_json c (front ++ us ∷ back) b ≡ fault out_of_bounds
  unfolding get_all_json export_with
  get_all_json_overrun front us back b t is_str unterminated =
      let start : Building Heap = record { heap = (c.create_object b.heap).1; object = [] } in
      ground (
        arith,
        m.object_lem b.heap,
        walk-in_order (export_each c) (front ++ us ∷ back) start,
        in_order-overrun front us back start t is_str unterminated,
      )
