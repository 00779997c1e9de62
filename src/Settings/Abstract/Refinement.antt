-- ===== src/Settings/Abstract/Refinement.antt =====
-- Sequences of calls of library/user_settings/user_settings.c as requests to the table of entries.
use irnas_usersettings_lib.Base.{
  ℕ, ◌≡◌, refl, ◌∙◌, sym, subst, arith, true, false, Option, none, some, List, [], ◌∷◌, map,
  find_index, find_index-map, modify, get_elem?, Bytes, bytes_eq, ok, Status, Outcome, done, fault,
  assertion, M, ◌>>=◌, pure, bind_done, bind_fault, Option-cases, inl, inr,
}
use irnas_usersettings_lib.Setting.{UserSetting}
use irnas_usersettings_lib.Platform.{Platform, PlatformLaws}
use irnas_usersettings_lib.State.{State}
use irnas_usersettings_lib.SettingsList.{get_by_key}
use irnas_usersettings_lib.SettingsList.Lookup.{get_by_key_iff}
use irnas_usersettings_lib.Settings.Change.{
  prv_user_settings_set, prv_user_settings_set_default, prv_set_changed_recently_flag, set_with_key,
  set_default_with_key, set_changed_with_key, clear_changed_with_key,
}
use irnas_usersettings_lib.Settings.Saving.{IsReady}
use irnas_usersettings_lib.Settings.Calls.{call, call_all}
use irnas_usersettings_lib.Settings.Abstract.{
  Entry, entry, put_value, put_default, put_flag, Request, request_set, request_set_default,
  request_mark, request_clear, as_call, requested_key, requested, serve_one, serve_rest, serve_all,
}
use irnas_usersettings_lib.Settings.Abstract.Stored.{IsStored}
use irnas_usersettings_lib.Settings.Abstract.Steps.{Steps, set-Steps}
use irnas_usersettings_lib.Settings.Abstract.OtherSteps.{set_default-Steps, flag-Steps}

-- The call returns with these entries, leaves the library in order, and they are what is stored; where there are none, an
-- assertion stops it.
abbrev pub Refines :
    {Subsys Heap : Type 0} {z : Platform Subsys Heap}
    → PlatformLaws z
    → Outcome (Unit {0} × State Subsys Heap)
    → Option (List Entry)
    → Type 0
Refines laws o none = o ≡ fault assertion
Refines {Subsys} {Heap} laws o (some es) =
    (s' : State Subsys Heap) × (o ≡ done (tt, s'))
    × (map entry s'.settings ≡ es)
    × IsReady laws s'
    × IsStored laws s'

find-entry :
    (key : Bytes) (l : List UserSetting)
    → find_index (λ e. bytes_eq key e.key) (map entry l) ≡ get_by_key key l
unfolding get_by_key entry
find-entry key l = sym (find_index-map (λ e. bytes_eq key e.key) entry l)

module _ {Subsys Heap : Type 0} {z : Platform Subsys Heap} (laws : PlatformLaws z)
    (saves : (name bs : Bytes) (sub : Subsys) → (z.settings_save_one name bs sub).0 ≡ ok tt) where
  -- A call that looks the key up, asserts that it is known, and does an operation on the setting.
  at_key :
      (key : Bytes) (m : M (State Subsys Heap) (Unit {0})) (op : ℕ → M (State Subsys Heap) Status)
      (g : Entry → Entry) (s : State Subsys Heap)
      → IsReady laws s
      → IsStored laws s
      → (get_by_key key s.settings ≡ none → m s ≡ fault assertion)
      → ((p : ℕ) → get_by_key key s.settings ≡ some p → m s ≡ (op p >>= λ _. pure tt) s)
      → ((p : ℕ) (us : UserSetting) → get_elem? s.settings p ≡ some us → Steps laws p g s (op p s))
      → Refines laws (m s) (elim (get_by_key key s.settings) [
        | none ↦ none
        | some p ↦ some (modify (map entry s.settings) p g)
      ])
  at_key key m op g s ready is_stored misses finds steps =
      elim (Option-cases (get_by_key key s.settings)) [
        | inl missing ↦ rw missing (misses missing)
        | inr (p, found) ↦
            let (us, here, same) = (get_by_key_iff key s.settings p ready.well_formed).0 found in
            let st = steps p us here in
            rw found (
              st.state,
              finds p found ∙ bind_done (op p) s (λ _. pure tt) st.run,
              st.entries,
              st.ready,
              st.stored,
            )
      ]

  -- The same with the table's own lookup.
  in_table :
      (r : Request) (s : State Subsys Heap)
      → Refines laws (call z (as_call r) s) (elim (get_by_key (requested_key r) s.settings) [
        | none ↦ none
        | some p ↦ some (modify (map entry s.settings) p (requested z.default_overwrite r))
      ])
      → Refines laws (call z (as_call r) s) (serve_one z.default_overwrite r (map entry s.settings))
  in_table r s h =
      subst
        (λ o. Refines laws (call z (as_call r) s) (elim o as (λ _. Option (List Entry)) [
          | none ↦ none
          | some p ↦ some (modify (map entry s.settings) p (requested z.default_overwrite r))
        ]))
        (sym (find-entry (requested_key r) s.settings)) h

  serve_one-Refines :
      (r : Request) (s : State Subsys Heap)
      → IsReady laws s
      → IsStored laws s
      → Refines laws (call z (as_call r) s) (serve_one z.default_overwrite r (map entry s.settings))
  unfolding call set_with_key set_default_with_key set_changed_with_key clear_changed_with_key
  serve_one-Refines (request_set key b bs) s ready is_stored = in_table (request_set key b bs) s (
      at_key key (call z (as_call (request_set key b bs))) (λ p. prv_user_settings_set z p (b ∷ bs))
        (put_value (b ∷ bs)) s ready is_stored (λ missing. ground (arith, ready.loaded))
        (λ p found. ground (arith, ready.loaded))
        (λ p us here. set-Steps laws saves p us s ready here is_stored b bs))
  serve_one-Refines (request_set_default key b bs) s ready is_stored =
      in_table (request_set_default key b bs) s (
        at_key key (call z (as_call (request_set_default key b bs)))
          (λ p. prv_user_settings_set_default z p (b ∷ bs))
          (put_default z.default_overwrite (b ∷ bs)) s ready is_stored
          (λ missing. ground (arith, ready.loaded)) (λ p found. ground (arith, ready.loaded))
          (λ p us here. set_default-Steps laws saves p us s ready here is_stored b bs))
  serve_one-Refines (request_mark key) s ready is_stored = in_table (request_mark key) s (
      at_key key (call z (as_call (request_mark key))) (λ p. prv_set_changed_recently_flag z p true)
        (put_flag true) s ready is_stored (λ missing. ground (arith, ready.loaded))
        (λ p found. ground (arith, ready.loaded))
        (λ p us here. flag-Steps laws saves p us s ready here is_stored true))
  serve_one-Refines (request_clear key) s ready is_stored = in_table (request_clear key) s (
      at_key key (call z (as_call (request_clear key)))
        (λ p. prv_set_changed_recently_flag z p false) (put_flag false) s ready is_stored
        (λ missing. ground (arith, ready.loaded)) (λ p found. ground (arith, ready.loaded))
        (λ p us here. flag-Steps laws saves p us s ready here is_stored false))

  -- Where the storage saves everything: a sequence of calls that set values and defaults (of at
  -- least one byte) and flags by key, made in a library in order (IsReady) whose values, defaults
  -- and flags are what is stored (IsStored), does to the settings, seen as a table of entries by
  -- key, what the requests do to the table: a value that fits, is new and is accepted is taken and
  -- marks its entry; a default likewise, if there is none or overwriting is on; a flag is set; every
  -- other entry stays. The calls return, leave the library in order, and the new entries are what is
  -- stored; where a request names a key that the table does not have, an assertion stops them.
  pub call_all-Refines :
      (rs : List Request) (s : State Subsys Heap)
      → IsReady laws s
      → IsStored laws s
      → Refines laws
          (call_all z (map as_call rs) s)
          (serve_all z.default_overwrite rs (map entry s.settings))
  unfolding call_all
  call_all-Refines [] s ready is_stored = (s, refl, refl, ready, is_stored)
  call_all-Refines (r ∷ rs) s ready is_stored =
      go (serve_one z.default_overwrite r (map entry s.settings))
        (serve_one-Refines r s ready is_stored)
        (λ s' ready' is_stored'. call_all-Refines rs s' ready' is_stored')
    where
      go :
          (o : Option (List Entry))
          → Refines laws (call z (as_call r) s) o
          → ((s' : State Subsys Heap)
              → IsReady laws s'
              → IsStored laws s'
              → Refines laws
                  (call_all z (map as_call rs) s')
                  (serve_all z.default_overwrite rs (map entry s'.settings)))
          → Refines laws
              (call_all z (map as_call (r ∷ rs)) s)
              (serve_rest (serve_all z.default_overwrite rs) o)
      go none h rest = bind_fault (call z (as_call r)) s (λ _. call_all z (map as_call rs)) h
      go (some es) (s', run, same, ready', is_stored') rest =
          subst (λ t. Refines laws t (serve_all z.default_overwrite rs es))
            (sym (bind_done (call z (as_call r)) s (λ _. call_all z (map as_call rs)) run))
            (subst
              (λ l.
                Refines laws (call_all z (map as_call rs) s') (serve_all z.default_overwrite rs l))
              same (rest s' ready' is_stored'))
