-- ===== src/Startup/Lifetime.antt =====
-- The life of a device: it is powered on, starts the library of
-- library/user_settings/user_settings.c, makes calls of it, is powered on again, and so on.
use irnas_usersettings_lib.Base.{
  ◌≡◌, refl, ap, ◌∙◌, sym, subst, false, none, some, Bool, Option, List, [], ◌∷◌, map, All, Bytes,
  ok, done, fault, assertion, Outcome, M, ◌>>=◌, ◌>>◌, pure, update, bind_done, bind_fault,
}
use irnas_usersettings_lib.Platform.{Platform, PlatformLaws}
use irnas_usersettings_lib.State.{State}
use irnas_usersettings_lib.SettingsList.Lookup.{IsWellFormed}
use irnas_usersettings_lib.Settings.Saving.{IsReady, NameFits}
use irnas_usersettings_lib.Settings.Restart.{LoadLaws}
use irnas_usersettings_lib.Settings.Calls.{call_all}
use irnas_usersettings_lib.Settings.Abstract.{Entry, entry, Request, as_call, serve_rest, serve_all}
use irnas_usersettings_lib.Settings.Abstract.FromStorage.{Holds, stored_entry}
use irnas_usersettings_lib.Settings.Abstract.Refinement.{Refines, call_all-Refines}
use irnas_usersettings_lib.Startup.{Declaration, IsProper, declared, start, allocate_all}
use irnas_usersettings_lib.Startup.Init.{StartLaws, started, started-stored}
use irnas_usersettings_lib.Startup.Ready.{at_start, start_outcome, start_lem, start-IsReady}
use irnas_usersettings_lib.Startup.Stored.{
  same-All-Holds, same-stored_entry, frame, frame-serve_all, IsStored-declared, loaded-entries,
  loaded-IsStored, frame-stored_entry,
}

-- The table after the requests of several sessions, one session after the other.
abbrev pub serve_sessions : Bool → List (List Request) → List Entry → Option (List Entry)
serve_sessions overwrite [] es = some es
serve_sessions overwrite (rs ∷ rest) es =
    serve_rest (serve_sessions overwrite rest) (serve_all overwrite rs es)

module _ {Subsys Heap : Type 0} (z : Platform Subsys Heap) (heap : Heap)
    (restarted : Subsys → Subsys) (ds : List Declaration) where
  -- All static variables are zero again, the heap is whole, and the settings subsystem is as
  -- `restarted` says.
  abbrev pub power_on : State Subsys Heap → State Subsys Heap
  power_on s = record {
    settings = [];
    heap = heap;
    subsys = restarted s.subsys;
    is_inited = false;
    is_loaded = false;
    global_on_change_cb = none;
    on_changes = [];
  }

  -- From one power-on to the next.
  unfoldable pub session : List Request → M (State Subsys Heap) (Unit {0})
  session rs = do update power_on; start z ds; call_all z (map as_call rs)

  unfoldable pub sessions : List (List Request) → M (State Subsys Heap) (Unit {0})
  sessions [] = pure tt
  sessions (rs ∷ rest) = session rs >>= λ _. sessions rest

-- What a device needs to run: a program that declares its settings properly, room on the heap for
-- them, and a storage that survives a restart, starts and saves everything.
pub record Works {Subsys Heap : Type 0} {z : Platform Subsys Heap} (laws : PlatformLaws z)
    (heap left : Heap) (restarted : Subsys → Subsys) (ds : List Declaration) : Type 0 where
  pub proper : All IsProper ds
  pub well_formed : IsWellFormed (map declared ds)
  pub names : All (NameFits z.settings_max_name_len) (map declared ds)
  pub room : allocate_all z ds heap ≡ some left
  pub survives :
      (name : Bytes) (sub : Subsys) → laws.stored name (restarted sub) ≡ laws.stored name sub
  pub starts : (sub : Subsys) → (started z (restarted sub)).0 ≡ ok tt
  pub saves : (name bs : Bytes) (sub : Subsys) → (z.settings_save_one name bs sub).0 ≡ ok tt

module _ {Subsys Heap : Type 0} {z : Platform Subsys Heap} (laws : PlatformLaws z)
    (load_laws : LoadLaws laws) (start_laws : StartLaws laws) (heap left : Heap)
    (restarted : Subsys → Subsys) (ds : List Declaration)
    (works : Works laws heap left restarted ds) where
  -- What the storage says of the declared settings.
  abbrev pub table : State Subsys Heap → List Entry
  table s = map (stored_entry laws s.subsys) (map declared ds)

  -- All that is stored of them can be loaded.
  abbrev pub Loadable : State Subsys Heap → Type 0
  Loadable s = All (Holds laws s.subsys) (map declared ds)

  -- It returns with this table in the storage, all of which can be loaded; where there is none, an
  -- assertion stops it.
  abbrev pub Leaves : Outcome (Unit {0} × State Subsys Heap) → Option (List Entry) → Type 0
  Leaves o none = o ≡ fault assertion
  Leaves o (some es) =
      (s' : State Subsys Heap) × (o ≡ done (tt, s')) × (table s' ≡ es) × Loadable s'

  started_at :
      (s : State Subsys Heap)
      → let s₀ = power_on z heap restarted ds s in
        let s₁ = at_start laws load_laws start_laws ds s₀ left in
        (start z ds s₀ ≡ done (ok tt, s₁)) × IsReady laws s₁
  started_at s =
      let s₀ = power_on z heap restarted ds s in
      (
        start_lem laws load_laws start_laws ds s₀ works.proper works.well_formed refl refl
            ∙ ap
                (λ r.
                  start_outcome (at_start laws load_laws start_laws ds s₀) r
                    (allocate_all z ds heap))
                (works.starts s.subsys)
            ∙ ap (start_outcome (at_start laws load_laws start_laws ds s₀) (ok tt)) works.room,
        start-IsReady laws load_laws start_laws ds s₀ works.proper works.well_formed refl refl left
            works.names (works.starts s.subsys),
      )

  -- The state after the start of a session.
  abbrev begun : State Subsys Heap → State Subsys Heap
  begun s = at_start laws load_laws start_laws ds (power_on z heap restarted ds s) left

  session_run :
      (rs : List Request) (s : State Subsys Heap)
      → session z heap restarted ds rs s ≡ call_all z (map as_call rs) (begun s)
  unfolding session
  session_run rs s =
      bind_done (start z ds) (power_on z heap restarted ds s) (λ _. call_all z (map as_call rs))
        (started_at s).0

  -- What the calls of a session leave behind.
  refined :
      (rs : List Request) (s : State Subsys Heap) (o : Option (List Entry))
      → serve_all z.default_overwrite rs (table s) ≡ o
      → Refines laws (call_all z (map as_call rs) (begun s)) o
      → Leaves (session z heap restarted ds rs s) o
  refined rs s none served r = session_run rs s ∙ r
  refined rs s (some es) served (s', run, same, ready, is_stored) =
      let frames : map frame (map entry s'.settings) ≡ map entry (map declared ds) =
        ap (map frame) same
        ∙ frame-serve_all z.default_overwrite rs (table s) served
        ∙ frame-stored_entry laws s.subsys ds in
      let (loadable, kept) =
        IsStored-declared laws s'.subsys s'.settings ds ready.well_formed.sound is_stored frames in
      (s', session_run rs s ∙ run, kept ∙ same, loadable)

  session-Leaves :
      (rs : List Request) (s : State Subsys Heap)
      → Loadable s
      → Leaves (session z heap restarted ds rs s) (serve_all z.default_overwrite rs (table s))
  session-Leaves rs s loadable =
      let sub = restarted s.subsys in
      let same = λ (name : Bytes). works.survives name s.subsys in
      let loadable' = same-All-Holds laws s.subsys sub same (map declared ds) loadable in
      let is_stored =
        loaded-IsStored laws sub (started z sub).1 ds
          (λ name. started-stored laws start_laws name sub) loadable' in
      let entries : map entry (begun s).settings ≡ table s =
        loaded-entries laws sub ds loadable'
        ∙ same-stored_entry laws s.subsys sub same (map declared ds) in
      refined rs s (serve_all z.default_overwrite rs (table s)) refl (
        subst
          (λ es.
            Refines laws (call_all z (map as_call rs) (begun s))
              (serve_all z.default_overwrite rs es))
          entries (call_all-Refines laws works.saves rs (begun s) (started_at s).1 is_stored))

  -- The whole life of a device. It is powered on any number of times; each time the program declares
  -- the same settings, loads them and makes calls that set values and defaults (of at least one
  -- byte) and flags by key. Where the device works (Works: proper declarations, room on the heap, a
  -- storage that survives a restart, starts and saves) and what is stored for its settings can be
  -- loaded, the table of stored entries is in the end what the requests of all sessions, one after
  -- the other, make of the table at first, and it can be loaded again; where a request names a key
  -- that is not declared, an assertion stops the program.
  pub sessions-Leaves :
      (rss : List (List Request)) (s : State Subsys Heap)
      → Loadable s
      → Leaves
          (sessions z heap restarted ds rss s)
          (serve_sessions z.default_overwrite rss (table s))
  unfolding sessions
  sessions-Leaves [] s loadable = (s, refl, refl, loadable)
  sessions-Leaves (rs ∷ rest) s loadable =
      go (serve_all z.default_overwrite rs (table s)) (session-Leaves rs s loadable)
        (λ s' loadable'. sessions-Leaves rest s' loadable')
    where
      go :
          (o : Option (List Entry))
          → Leaves (session z heap restarted ds rs s) o
          → ((s' : State Subsys Heap)
              → Loadable s'
              → Leaves
                  (sessions z heap restarted ds rest s')
                  (serve_sessions z.default_overwrite rest (table s')))
          → Leaves
              ((session z heap restarted ds rs >>= λ _. sessions z heap restarted ds rest) s)
              (serve_rest (serve_sessions z.default_overwrite rest) o)
      go none h next = bind_fault (session z heap restarted ds rs) s _ h
      go (some es) (s', run, same, loadable') next =
          subst (λ t. Leaves t (serve_sessions z.default_overwrite rest es))
            (sym (bind_done (session z heap restarted ds rs) s _ run))
            (subst
              (λ l.
                Leaves (sessions z heap restarted ds rest s')
                  (serve_sessions z.default_overwrite rest l))
              same (next s' loadable'))
