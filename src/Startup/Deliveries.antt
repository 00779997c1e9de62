-- ===== src/Startup/Deliveries.antt =====
-- user_settings_load of library/user_settings/user_settings.c with any storage: reads may fail,
-- pairs may be missing, unknown or too long, and the loading of a subtree may fail.
use irnas_usersettings_lib.Base.{
  ℕ, ◌≤◌, ◌≡◌, ◌⊎◌, inl, inr, refl, sym, subst, ap, ◌∙◌, true, false, some, List, [], ◌∷◌, Outcome,
  arith, length, length-modify, get_elem?, get_elem?-modify_self, All, All-get, All-modify_at,
  find_index-some, Bytes, bytes_eq, ltb, Status, ok, err, Errno, eio, enoent, einval, done, M,
  Bool-cases, Option-cases, Result-cases, ◌>>=◌, pure, bind_done,
}
use irnas_usersettings_lib.Setting.{UserSetting, IsSound}
use irnas_usersettings_lib.Platform.{
  Platform, PlatformLaws, Handler, HandlerCall, ReadResult, failed, got, IsBounded, default_sh,
  value_sh, changed_sh, full_name, prefix,
}
use irnas_usersettings_lib.State.{State}
use irnas_usersettings_lib.SettingsList.{get_by_key}
use irnas_usersettings_lib.SettingsList.Lookup.{modify-IsWellFormed}
use irnas_usersettings_lib.Settings.Handlers.{h_set, with_value}
use irnas_usersettings_lib.Settings.Init.{deliver, load_subtree, load, or_eio}
use irnas_usersettings_lib.Settings.Saving.{NameFits, applied, room}
use irnas_usersettings_lib.Settings.Ready.{
  change, change-IsSound, change-id, change-key, applied-settings, applied_flags,
}
use irnas_usersettings_lib.Settings.Safety.{InOrder}

read_cases :
    (r : ReadResult)
    → ((e : Errno) × (r ≡ failed e))
      ⊎ ((r ≡ got []) ⊎ ((b : ℕ) × (bs : Bytes) × (r ≡ got (b ∷ bs))))
read_cases (failed e) = inl (e, refl)
read_cases (got []) = inr (inl refl)
read_cases (got (b ∷ bs)) = inr (inr (b, bs, refl))

module _ {Subsys Heap : Type 0} where
  applied-subsys :
      (h : Handler) (p : ℕ) (us : UserSetting) (bs : Bytes) (s : State Subsys Heap)
      → (applied h p us bs s).subsys ≡ s.subsys
  applied-subsys default_sh p us bs s = refl
  applied-subsys value_sh p us bs s = ground arith
  applied-subsys changed_sh p us bs s = refl

  -- A callback leaves the state alone or does to a setting what the bytes read say.
  IsHandled : Handler → HandlerCall → State Subsys Heap → Type 0
  IsHandled h c s =
      ((r : Status) × (h_set h c s ≡ done (r, s)))
      ⊎ ((p : ℕ) × (us : UserSetting) × (bs : Bytes) × (get_elem? s.settings p ≡ some us)
          × (c.read (room h us) ≡ got bs)
          × (h_set h c s ≡ done (ok tt, applied h p us bs s)))

  found_at :
      (key : Bytes) (s : State Subsys Heap) (p : ℕ)
      → get_by_key key s.settings ≡ some p
      → (us : UserSetting) × (get_elem? s.settings p ≡ some us)
  unfolding get_by_key
  found_at key s p e =
      let (us, here, pass) = find_index-some (λ us. bytes_eq key us.key) s.settings e in (us, here)

  changed-IsHandled :
      (c : HandlerCall) (s : State Subsys Heap) (p : ℕ) (us : UserSetting)
      → get_by_key c.key s.settings ≡ some p
      → get_elem? s.settings p ≡ some us
      → IsHandled changed_sh c s
  unfolding IsHandled h_set
  changed-IsHandled c s p us found here = elim (read_cases (c.read 1)) [
    | inl (e, q) ↦ inl (err e, ground (arith, found, q))
    | inr (inl q) ↦ inl (ok tt, ground (arith, found, q))
    | inr (inr (b, bs, q)) ↦ inr (p, us, b ∷ bs, here, q, ground (arith, found, q))
  ]

  -- The callbacks for a setting that is found and has room for the pair.
  read-IsHandled :
      (h : Handler) (c : HandlerCall) (s : State Subsys Heap) (p : ℕ) (us : UserSetting)
      → get_by_key c.key s.settings ≡ some p
      → get_elem? s.settings p ≡ some us
      → ltb us.max_size c.len ≡ false
      → IsHandled h c s
  unfolding IsHandled h_set
  read-IsHandled default_sh c s p us found here fits = elim (read_cases (c.read us.max_size)) [
    | inl (e, q) ↦ inl (err e, ground (arith, found, here, fits, q))
    | inr (inl q) ↦ inl (ok tt, ground (arith, found, here, fits, q))
    | inr (inr (b, bs, q)) ↦ inr (p, us, b ∷ bs, here, q, ground (arith, found, here, fits, q))
  ]
  read-IsHandled value_sh c s p us found here fits = elim (read_cases (c.read us.max_size)) [
    | inl (e, q) ↦ inl (err e, ground (arith, found, here, fits, q))
    | inr (inl q) ↦ inl (ok tt, ground (arith, found, here, fits, q))
    | inr (inr (b, bs, q)) ↦
        let there = get_elem?-modify_self s.settings p (with_value (b ∷ bs)) here in
        inr (p, us, b ∷ bs, here, q, ground (arith, found, here, fits, q, there))
  ]
  read-IsHandled changed_sh c s p us found here fits = changed-IsHandled c s p us found here

  h_set-IsHandled : (h : Handler) (c : HandlerCall) (s : State Subsys Heap) → IsHandled h c s
  unfolding IsHandled h_set
  h_set-IsHandled default_sh c s = elim (Option-cases (get_by_key c.key s.settings)) [
    | inl unknown ↦ inl (err enoent, ground (arith, unknown))
    | inr (p, found) ↦
        let (us, here) = found_at c.key s p found in
        elim (Bool-cases (ltb us.max_size c.len)) [
          | inl long ↦ inl (err einval, ground (arith, found, here, long))
          | inr fits ↦ read-IsHandled default_sh c s p us found here fits
        ]
  ]
  h_set-IsHandled value_sh c s = elim (Option-cases (get_by_key c.key s.settings)) [
    | inl unknown ↦ inl (err enoent, ground (arith, unknown))
    | inr (p, found) ↦
        let (us, here) = found_at c.key s p found in
        elim (Bool-cases (ltb us.max_size c.len)) [
          | inl long ↦ inl (err einval, ground (arith, found, here, long))
          | inr fits ↦ read-IsHandled value_sh c s p us found here fits
        ]
  ]
  h_set-IsHandled changed_sh c s = elim (Option-cases (get_by_key c.key s.settings)) [
    | inl unknown ↦ inl (err enoent, ground (arith, unknown))
    | inr (p, found) ↦
        let (us, here) = found_at c.key s p found in changed-IsHandled c s p us found here
  ]

module _ {Subsys Heap : Type 0} {z : Platform Subsys Heap} (laws : PlatformLaws z) (n : ℕ) where
  -- Not loaded, and in order apart from that.
  abbrev pub IsWaiting : State Subsys Heap → Type 0
  IsWaiting s = (s.is_loaded ≡ false) × InOrder laws n (record s { is_loaded = true })

  applied-IsWaiting :
      (h : Handler) (p : ℕ) (us : UserSetting) (bs : Bytes) (s : State Subsys Heap)
      → get_elem? s.settings p ≡ some us
      → length bs ≤ room h us
      → IsWaiting s
      → IsWaiting (applied h p us bs s)
  applied-IsWaiting h p us bs s here fits (unloaded, (ready, count)) =
      let settings = applied-settings h p us bs s in
      (
        (applied_flags h p us bs s).1 ∙ unloaded,
        (
          record {
            inited = (applied_flags h p us bs s).0 ∙ ready.inited;
            loaded = refl;
            well_formed = rw settings (
                modify-IsWellFormed s.settings p (change h bs) here (change-id h bs)
                  (change-key h bs)
                  (change-IsSound h bs us fits
                    (All-get IsSound s.settings p ready.well_formed.sound here))
                  ready.well_formed);
            registered = λ g. rw (applied-subsys h p us bs s) (ready.registered g);
            names = rw settings (
                All-modify_at (NameFits z.settings_max_name_len) s.settings p (change h bs) here
                  (subst (λ k. (g : Handler) → length (full_name g k) ≤ z.settings_max_name_len)
                    (sym (change-key h bs us))
                    (All-get (NameFits z.settings_max_name_len) s.settings p ready.names here))
                  ready.names);
          },
          ap length settings ∙ length-modify s.settings p (change h bs) ∙ count,
        ),
      )

  -- It returns, and the library is as before apart from settings that were given bytes.
  StillWaits : {A : Type 0} → Outcome (A × State Subsys Heap) → Type 0
  StillWaits {A} o = (a : A) × (s' : State Subsys Heap) × (o ≡ done (a, s')) × IsWaiting s'

  h_set-StillWaits :
      (h : Handler) (c : HandlerCall) (s : State Subsys Heap)
      → IsBounded (h, c)
      → IsWaiting s
      → StillWaits (h_set h c s)
  unfolding StillWaits IsHandled
  h_set-StillWaits h c s bounded w = elim (h_set-IsHandled h c s) [
    | inl (r, run) ↦ (r, s, run, w)
    | inr (p, us, bs, here, read, run) ↦ (
      ok tt,
      applied h p us bs s,
      run,
      applied-IsWaiting h p us bs s here (bounded (room h us) bs read) w,
    )
  ]

  deliver-StillWaits :
      (l : List (Handler × HandlerCall)) (s : State Subsys Heap)
      → All IsBounded l
      → IsWaiting s
      → StillWaits (deliver z l s)
  unfolding StillWaits deliver
  deliver-StillWaits [] s bounded w = (tt, s, refl, w)
  deliver-StillWaits ((h, c) ∷ l) s bounded w =
      let (r, s₁, run, w₁) = h_set-StillWaits h c s bounded.0 w in
      let (t, s₂, run', w₂) = deliver-StillWaits l s₁ bounded.1 w₁ in
      (t, s₂, bind_done (h_set h c) s (λ _. deliver z l) run ∙ run', w₂)

  load_subtree-StillWaits :
      (h : Handler) (s : State Subsys Heap) → IsWaiting s → StillWaits (load_subtree z h s)
  unfolding StillWaits load_subtree
  load_subtree-StillWaits h s w =
      let loaded = z.settings_load_subtree (prefix h) s.subsys in
      let (t, s', run, w') =
        deliver-StillWaits loaded.0 s (laws.load_bounded (prefix h) s.subsys) w in
      (loaded.1, s', bind_done (deliver z loaded.0) s (λ _. pure loaded.1) run, w')

  -- user_settings_load fails and the library stays unloaded, or it succeeds and the library is in
  -- order.
  abbrev pub Loads : Outcome (Status × State Subsys Heap) → Type 0
  Loads o =
      (r : Status) × (s' : State Subsys Heap) × (o ≡ done (r, s'))
      × ((s'.is_loaded ≡ false) ⊎ InOrder laws n s')

  -- After a subtree: the end, or what follows.
  subtree-Loads :
      (h : Handler) (rest : M (State Subsys Heap) Status) (s : State Subsys Heap)
      → IsWaiting s
      → ((s' : State Subsys Heap) → IsWaiting s' → Loads (rest s'))
      → Loads ((load_subtree z h >>= λ e. or_eio e rest) s)
  unfolding StillWaits
  subtree-Loads h rest s w next =
      let (r, s', run, w') = load_subtree-StillWaits h s w in
      let step = bind_done (load_subtree z h) s (λ e. or_eio e rest) run in
      elim (Result-cases r) [
        | inl good ↦
            let (r', s₂, run', end) = next s' w' in
            (r', s₂, step ∙ ap (λ e. or_eio e rest s') good ∙ run', end)
        | inr (e, bad) ↦ (err eio, s', step ∙ ap (λ e. or_eio e rest s') bad, inl w'.0)
      ]

  pub load-Loads : (s : State Subsys Heap) → IsWaiting s → Loads (load z s)
  unfolding load
  load-Loads s w =
      let (r, s', run, end) = subtree-Loads default_sh _ s w (λ s₁ w₁.
        subtree-Loads value_sh _ s₁ w₁ (λ s₂ w₂.
          subtree-Loads changed_sh _ s₂ w₂
            (λ s₃ w₃. (ok tt, record s₃ { is_loaded = true }, refl, inr w₃.1)))) in
      (r, s', ground (arith, w.1.0.inited, run), end)
