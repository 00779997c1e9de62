-- ===== src/Samples/Basic.antt =====
-- What the program samples/basic/src/main.c does.
use irnas_usersettings_lib.Base.{
  ℕ, ◌≡◌, refl, ap, ◌∙◌, sym, false, M, Outcome, done, fault, Status, ◌>>=◌, pure, bind_assoc,
  bind_cong,
}
use irnas_usersettings_lib.Platform.{Platform, PlatformLaws}
use irnas_usersettings_lib.State.{State}
use irnas_usersettings_lib.Settings.Init.{init, load}
use irnas_usersettings_lib.Settings.Restart.{LoadLaws}
use irnas_usersettings_lib.Startup.{start, declare_all, allocate_all}
use irnas_usersettings_lib.Startup.Init.{StartLaws, started}
use irnas_usersettings_lib.Startup.Ready.{at_start, start_outcome, start_lem}
use irnas_usersettings_lib.Samples.{basic_main}
use irnas_usersettings_lib.Samples.Settings.{
  t1_t11, t1_t11-IsProper, t1_t11-IsWellFormed, add_t1_t11-declare_all,
}

-- 0 in place of the status.
abbrev pub returning_0 : {S : Type 0} → Outcome (Status × S) → Outcome (ℕ × S)
returning_0 (done (r, s)) = done (0, s)
returning_0 (fault e) = fault e

then_0 :
    {S : Type 0} (o : Outcome (Status × S))
    → elim o as (λ _. Outcome (ℕ × S)) [ done (r, s') ↦ done (0, s') | fault e ↦ fault e ]
      ≡ returning_0 o
then_0 (done (r, s')) = refl
then_0 (fault e) = refl

module _ {Subsys Heap : Type 0} (z : Platform Subsys Heap) where
  basic_main-start : (s : State Subsys Heap) → basic_main z s ≡ (start z t1_t11 >>= λ _. pure 0) s
  unfolding basic_main start
  basic_main-start s =
      ap
        (λ (m : M (State Subsys Heap) (Unit {0})).
          (init z >>= λ _. m >>= λ _. load z >>= λ _. pure 0) s)
        (add_t1_t11-declare_all z)
      ∙ bind_cong (init z) s (λ _. declare_all z t1_t11 >>= λ _. load z >>= λ _. pure 0)
          (λ _. (declare_all z t1_t11 >>= λ _. load z) >>= λ _. pure 0)
          (λ a s' run. sym (bind_assoc (λ _. load z) (λ _. pure 0) (declare_all z t1_t11) s'))
      ∙ sym (bind_assoc (λ _. declare_all z t1_t11 >>= λ _. load z) (λ _. pure 0) (init z) s)

module _ {Subsys Heap : Type 0} {z : Platform Subsys Heap} (laws : PlatformLaws z)
    (load_laws : LoadLaws laws) (start_laws : StartLaws laws) (s : State Subsys Heap) where
  -- The program, from its first state: when the settings subsystem starts and the heap holds the
  -- eleven settings, it returns 0, and each setting is what is stored of it; when the subsystem does
  -- not start or the heap is full, an assertion stops it.
  pub basic_main_lem :
      s.is_inited ≡ false
      → s.is_loaded ≡ false
      → basic_main z s
        ≡ returning_0 (
            start_outcome
              (at_start laws load_laws start_laws t1_t11 s)
              (started z s.subsys).0
              (allocate_all z t1_t11 s.heap))
  basic_main_lem fresh unloaded =
      basic_main-start z s
      ∙ then_0 (start z t1_t11 s)
      ∙ ap returning_0 (
          start_lem laws load_laws start_laws t1_t11 s t1_t11-IsProper t1_t11-IsWellFormed fresh
            unloaded)
