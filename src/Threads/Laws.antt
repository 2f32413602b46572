-- ===== src/Threads/Laws.antt =====
-- What a thread's structure costs, and how waiting for a thread ends: os/posix/thread.c and
-- os/minios/thread.c.
use cloning_apps.Base.{
  ℕ, ℤ, zero, suc, pos, ◌≡◌, ◌≢◌, ◌⊎◌, inl, inr, false, Option, none, some, arith, is_zero,
  minus_one, ap, ◌∙◌,
}
use cloning_apps.System.{Env, State, Trace}
use cloning_apps.System.Ends.{Ends, Never}
use cloning_apps.System.Ledger.{Holds, Balanced}
use cloning_apps.Threads.{
  OsThread, thread_func_wrapper, os_thread_create_posix, os_thread_create_minios,
  os_thread_destroy_posix, os_thread_destroy_minios, os_thread_wait_minios,
}

-- A new thread owns the structure at its address; a failure owns nothing.
abbrev pub Created : ℤ → ℕ → Trace → ℤ → Option ℕ → Trace → Type 0
Created fd p t rc none u = (is_zero rc ≡ false) × Balanced fd p t u
Created fd p t rc (some a) u = (rc ≡ pos 0) × (a ≢ 0) × Holds fd p minus_one a t u

abbrev pub address : Option (ℕ × OsThread) → Option ℕ
address none = none
address (some (a, _)) = some a

module _ ⦃env : Env⦄ where
  os_thread_create_posix-Created :
      (fd : ℤ) (p : ℕ) (s : State)
      → Ends (λ (rc, pt) s'. Created fd p s.trace rc pt s'.trace) Never (os_thread_create_posix s)
  unfolding os_thread_create_posix
  os_thread_create_posix-Created fd p s = ground arith

  os_thread_create_minios-Created :
      (fd : ℤ) (p func arg : ℕ) (s : State)
      → Ends
          (λ (rc, pt) s'. Created fd p s.trace rc (address pt) s'.trace)
          Never
          (os_thread_create_minios func arg s)
  unfolding os_thread_create_minios
  os_thread_create_minios-Created fd p func arg s = ground arith

  -- On both platforms `os_thread_create` either returns 0 with a structure that it allocated and
  -- keeps, or returns an error and has freed what it allocated.
  pub os_thread_create-Created :
      (fd : ℤ) (p func arg : ℕ) (s : State)
      → Ends (λ (rc, pt) s'. Created fd p s.trace rc pt s'.trace) Never (os_thread_create_posix s)
        × Ends
            (λ (rc, pt) s'. Created fd p s.trace rc (address pt) s'.trace)
            Never
            (os_thread_create_minios func arg s)
  os_thread_create-Created fd p func arg s =
      (os_thread_create_posix-Created fd p s, os_thread_create_minios-Created fd p func arg s)

  -- Both versions of `os_thread_destroy` free the structure of a thread, once.
  pub os_thread_destroy-Balanced :
      (fd : ℤ) (p a : ℕ) (t : Trace) (s : State)
      → a ≢ 0
      → Holds fd p minus_one a t s.trace
      → Ends (λ rc s'. (rc ≡ pos 0) × Balanced fd p t s'.trace) Never (os_thread_destroy_posix a s)
        × Ends
            (λ rc s'. (rc ≡ pos 0) × Balanced fd p t s'.trace)
            Never
            (os_thread_destroy_minios a s)
  unfolding os_thread_destroy_posix os_thread_destroy_minios
  os_thread_destroy-Balanced fd p a t s h held = (ground arith, ground arith)

  -- Under Mini-OS, waiting for a thread whose structure starts unfinished, and is only ever as it
  -- was or as `thread_func_wrapper` leaves it, never returns, however often the waiter is woken up.
  pub os_thread_wait_minios-never :
      (run : ℕ → ℕ → ℕ) (t : OsThread) (seen : ℕ → OsThread) (fuel i : ℕ) (s : State)
      → t.finished ≡ false
      → ((j : ℕ) → (seen j ≡ t) ⊎ (seen j ≡ thread_func_wrapper run t))
      → Ends (λ _ _. ⊥) (λ _. Unit {0}) (os_thread_wait_minios fuel seen i s)
  unfolding os_thread_wait_minios
  os_thread_wait_minios-never run t seen zero i s h only = tt
  os_thread_wait_minios-never run t seen (suc fuel) i s h only =
      let unfinished : (seen i).finished ≡ false = elim (only i) [
        | inl e ↦ ap (λ x. x.finished) e ∙ h
        | inr e ↦ ap (λ x. x.finished) e ∙ h
      ] in
      rw unfinished (os_thread_wait_minios-never run t seen fuel (suc i) _ h only)
