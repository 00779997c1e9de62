-- ===== src/Settings/Calls.antt =====
-- Any sequence of calls of the functions of library/user_settings/user_settings.c that change
-- something, made after user_settings_load.
use irnas_usersettings_lib.Base.{
  ℕ, ◌<◌, ◌≡◌, ◌⊎◌, inl, inr, subst, sym, Bool, true, false, Option, some, List, [], ◌∷◌, arith,
  lt_of_get_elem?, find_index-some, Bytes, bytes_eq, ◌==◌, Status, Outcome, fault, assertion, M,
  ◌>>=◌, pure, bind_done, ok, Option-cases,
}
use irnas_usersettings_lib.Platform.{Platform, PlatformLaws}
use irnas_usersettings_lib.State.{State}
use irnas_usersettings_lib.SettingsList.{get_by_key, get_by_id, for_each}
use irnas_usersettings_lib.Settings.Change.{
  assert_loaded, prv_user_settings_set, prv_user_settings_set_default,
  prv_set_changed_recently_flag, require_key, require_id, set_with_key, set_with_id,
  set_default_with_key, set_default_with_id, set_changed_with_key, set_changed_with_id,
  clear_changed_with_key, clear_changed_with_id,
}
use irnas_usersettings_lib.Settings.Restore.{
  prv_settings_restore, restore_each, clear_each, restore_defaults, restore_default_with_key,
  restore_default_with_id, clear_changed,
}
use irnas_usersettings_lib.Settings.Safety.{
  InOrder, Returns, Returns-pure, Returns-step, Returns-bind, flag-Returns, set-Returns,
}
use irnas_usersettings_lib.Settings.Loops.{
  set_default-Returns, restore-Returns, restore_each-Returns, clear_each-Returns, for_each-Returns,
}

-- A setting is named by its key or by its ID.
pub data Target : Type 0 where
  with_key : Bytes → Target
  with_id : ℕ → Target

pub data Call : Type 0 where
  sets sets_default : Target → Bytes → Call
  restores marks clears : Target → Call
  restores_all clears_all : Call

module _ {Subsys Heap : Type 0} where
  abbrev discard : {A : Type 0} → M (State Subsys Heap) A → M (State Subsys Heap) (Unit {0})
  discard m = m >>= λ _. pure tt

module _ {Subsys Heap : Type 0} (z : Platform Subsys Heap) where
  unfoldable pub call : Call → M (State Subsys Heap) (Unit {0})
  unfolding set_with_key set_with_id set_default_with_key set_default_with_id set_changed_with_key
      set_changed_with_id clear_changed_with_key clear_changed_with_id restore_defaults
      restore_default_with_key restore_default_with_id clear_changed
  call (sets (with_key key) bs) = discard (set_with_key z key bs)
  call (sets (with_id id) bs) = discard (set_with_id z id bs)
  call (sets_default (with_key key) bs) = discard (set_default_with_key z key bs)
  call (sets_default (with_id id) bs) = discard (set_default_with_id z id bs)
  call (restores (with_key key)) = discard (restore_default_with_key z key)
  call (restores (with_id id)) = discard (restore_default_with_id z id)
  call (marks (with_key key)) = set_changed_with_key z key
  call (marks (with_id id)) = set_changed_with_id z id
  call (clears (with_key key)) = clear_changed_with_key z key
  call (clears (with_id id)) = clear_changed_with_id z id
  call restores_all = restore_defaults z
  call clears_all = clear_changed z

  unfoldable pub call_all : List Call → M (State Subsys Heap) (Unit {0})
  call_all [] = pure tt
  call_all (c ∷ cs) = call c >>= λ _. call_all cs

module _ {Subsys Heap : Type 0} {z : Platform Subsys Heap} (laws : PlatformLaws z) (n : ℕ) where
  -- It returns, or an assertion stops it: never a dangling pointer, an access outside a buffer or a
  -- loop without end.
  abbrev pub IsSafe : {A : Type 0} → Outcome (A × State Subsys Heap) → Type 0
  IsSafe o = Returns laws n o ⊎ (o ≡ fault assertion)

  IsSafe-bind :
      {A B : Type 0} (m : M (State Subsys Heap) A) (k : A → M (State Subsys Heap) B)
      (s : State Subsys Heap)
      → IsSafe (m s)
      → ((a : A) (s' : State Subsys Heap) → InOrder laws n s' → IsSafe (k a s'))
      → IsSafe ((m >>= k) s)
  IsSafe-bind m k s (inl (a, s', e, i)) rest = subst IsSafe (sym (bind_done m s k e)) (rest a s' i)
  IsSafe-bind m k s (inr e) rest = inr (ground arith)

  IsSafe-discard :
      {A : Type 0} (m : M (State Subsys Heap) A) (s : State Subsys Heap)
      → IsSafe (m s)
      → IsSafe (discard m s)
  IsSafe-discard m s safe =
      IsSafe-bind m (λ _. pure tt) s safe λ a s' i. inl (Returns-pure laws n tt s' i)

  key_lt :
      (key : Bytes) (s : State Subsys Heap) {p : ℕ}
      → InOrder laws n s
      → get_by_key key s.settings ≡ some p
      → p < n
  unfolding get_by_key
  key_lt key s i e =
      let (us, here, pass) = find_index-some (λ us. bytes_eq key us.key) s.settings e in
      omega (arith, i.1, lt_of_get_elem? s.settings _ here)

  id_lt :
      (id : ℕ) (s : State Subsys Heap) {p : ℕ}
      → InOrder laws n s
      → get_by_id id s.settings ≡ some p
      → p < n
  unfolding get_by_id
  id_lt id s i e =
      let (us, here, pass) = find_index-some (λ us. id == us.id) s.settings e in
      omega (arith, i.1, lt_of_get_elem? s.settings _ here)

  -- assert(loaded), look up, assert(found), and an operation on what was found
  key-IsSafe :
      {A : Type 0} (key : Bytes) (op : ℕ → M (State Subsys Heap) A) (s : State Subsys Heap)
      → InOrder laws n s
      → ((p : ℕ) → p < n → Returns laws n (op p s))
      → IsSafe ((assert_loaded >>= λ _. require_key key >>= op) s)
  key-IsSafe key op s i runs = elim (Option-cases (get_by_key key s.settings)) [
    | inl e ↦ inr (ground (arith, i.0.loaded))
    | inr (p, e) ↦
        inl (Returns-step laws n (ground (arith, i.0.loaded)) (runs p (key_lt key s i e)))
  ]

  id-IsSafe :
      {A : Type 0} (id : ℕ) (op : ℕ → M (State Subsys Heap) A) (s : State Subsys Heap)
      → InOrder laws n s
      → ((p : ℕ) → p < n → Returns laws n (op p s))
      → IsSafe ((assert_loaded >>= λ _. require_id id >>= op) s)
  id-IsSafe id op s i runs = elim (Option-cases (get_by_id id s.settings)) [
    | inl e ↦ inr (ground (arith, i.0.loaded))
    | inr (p, e) ↦ inl (Returns-step laws n (ground (arith, i.0.loaded)) (runs p (id_lt id s i e)))
  ]

  all-IsSafe :
      (body : ℕ → M (State Subsys Heap) (Option (Unit {0}))) (s : State Subsys Heap)
      → InOrder laws n s
      → ((p : ℕ) → p < n → (t : State Subsys Heap) → InOrder laws n t → Returns laws n (body p t))
      → IsSafe ((assert_loaded >>= λ _. for_each body >>= λ _. pure tt) s)
  all-IsSafe body s i each = inl (
      Returns-step laws n (ground (arith, i.0.loaded)) (
        Returns-bind laws n (for_each body) (λ _. pure tt) s (for_each-Returns laws n body each s i)
          λ r s' i'. Returns-pure laws n tt s' i'))

  flagging :
      (flag : Bool) (s : State Subsys Heap)
      → InOrder laws n s
      → (p : ℕ) → p < n
      → Returns laws n ((prv_set_changed_recently_flag z p flag >>= λ _. pure tt) s)
  flagging flag s i p lt =
      Returns-bind laws n (prv_set_changed_recently_flag z p flag) (λ _. pure tt) s
        (flag-Returns laws n p lt flag s i) λ r s' i'. Returns-pure laws n tt s' i'

  restoring :
      (s : State Subsys Heap)
      → InOrder laws n s
      → (p : ℕ) → p < n
      → Returns laws n ((prv_settings_restore z p >>= λ _. pure {A = Status} (ok tt)) s)
  restoring s i p lt =
      Returns-bind laws n (prv_settings_restore z p) (λ _. pure (ok tt)) s
        (restore-Returns laws n p lt s i) λ r s' i'. Returns-pure laws n (ok tt) s' i'

  pub call-IsSafe : (c : Call) (s : State Subsys Heap) → InOrder laws n s → IsSafe (call z c s)
  unfolding call
  call-IsSafe (sets (with_key key) bs) s i = IsSafe-discard (set_with_key z key bs) s (
      key-IsSafe key (λ p. prv_user_settings_set z p bs) s i λ p lt. set-Returns laws n p lt bs s i)
  call-IsSafe (sets (with_id id) bs) s i =
      IsSafe-discard (set_with_id z id bs) s (
        id-IsSafe id (λ p. prv_user_settings_set z p bs) s i λ p lt. set-Returns laws n p lt bs s i)
  call-IsSafe (sets_default (with_key key) bs) s i =
      IsSafe-discard (set_default_with_key z key bs) s (
        key-IsSafe key (λ p. prv_user_settings_set_default z p bs) s i
          λ p lt. set_default-Returns laws n p lt bs s i)
  call-IsSafe (sets_default (with_id id) bs) s i = IsSafe-discard (set_default_with_id z id bs) s (
      id-IsSafe id (λ p. prv_user_settings_set_default z p bs) s i
        λ p lt. set_default-Returns laws n p lt bs s i)
  call-IsSafe (restores (with_key key)) s i =
      IsSafe-discard (restore_default_with_key z key) s
        (key-IsSafe key (λ p. prv_settings_restore z p >>= λ _. pure (ok tt)) s i (restoring s i))
  call-IsSafe (restores (with_id id)) s i =
      IsSafe-discard (restore_default_with_id z id) s
        (id-IsSafe id (λ p. prv_settings_restore z p >>= λ _. pure (ok tt)) s i (restoring s i))
  call-IsSafe (marks (with_key key)) s i = key-IsSafe key _ s i (flagging true s i)
  call-IsSafe (marks (with_id id)) s i = id-IsSafe id _ s i (flagging true s i)
  call-IsSafe (clears (with_key key)) s i = key-IsSafe key _ s i (flagging false s i)
  call-IsSafe (clears (with_id id)) s i = id-IsSafe id _ s i (flagging false s i)
  call-IsSafe restores_all s i = all-IsSafe (restore_each z) s i (restore_each-Returns laws n)
  call-IsSafe clears_all s i = all-IsSafe (clear_each z) s i (clear_each-Returns laws n)

  pub call_all-IsSafe :
      (cs : List Call) (s : State Subsys Heap) → InOrder laws n s → IsSafe (call_all z cs s)
  unfolding call_all
  call_all-IsSafe [] s i = inl (Returns-pure laws n tt s i)
  call_all-IsSafe (c ∷ cs) s i =
      IsSafe-bind (call z c) (λ _. call_all z cs) s (call-IsSafe c s i)
        λ a s' i'. call_all-IsSafe cs s' i'
