-- ===== src/Fuzz/Laws.antt =====
-- The two arrays that decide whether the target of fuzz.c crashes.
use cloning_apps.Base.{
  codes, ◌∷◌, sub_ℕ, ℕ, ℤ, zero, suc, pos, ◌≡◌, refl, false, List, arith, bytes_eq, take,
  if◌then◌else◌, is_pos, ◌==ℤ◌, ◌==◌,
}
use cloning_apps.System.{
  Env, State, Reply, Trace, Call, event, pure, xs_read, xs_write, asprintf, xs_watch_path,
  stale_word,
}
use cloning_apps.System.Ends
use cloning_apps.System.Ends.{Ends, Never}
use cloning_apps.Fuzz.{wait_loop, end_wait, wait_harness_trigger, test, my_init_module}

abbrev Any : State → Type 0
Any _ = Unit {0}

module _ ⦃env : Env⦄ where
  wait_loop-safe : (fuel : ℕ) (s : State) → Ends (λ _ _. Unit {0}) Any (wait_loop fuel s)
  unfolding wait_loop
  wait_loop-safe zero s = tt
  wait_loop-safe (suc fuel) s =
      Ends.branch (λ _ _. Unit {0}) Any
        (if r.ptr == 0 then false else bytes_eq r.bytes (codes "done")) (pure tt) _
        (record s { trace = event xs_read r ∷ s.trace }) (λ _. tt) λ _. wait_loop-safe fuel _
    where
      r : Reply
      r = env.answer s.trace xs_read

  end_wait-safe :
      (path watch : ℕ) (rc : ℤ) (s : State) → Ends (λ _ _. Unit {0}) Any (end_wait path watch rc s)
  unfolding end_wait
  end_wait-safe path watch rc s = ground arith

  wait_harness_trigger-safe :
      (fuel : ℕ) (s : State) → Ends (λ _ _. Unit {0}) Any (wait_harness_trigger fuel s)
  unfolding wait_harness_trigger
  wait_harness_trigger-safe fuel s =
      Ends.branch P Any (r0.value ==ℤ pos 0) _ _ (record s { trace = t1 })
        (λ _.
          Ends.branch P Any (is_pos r1.value) _ _ (record s { trace = t2 })
            (λ _.
              Ends.branch P Any (r2.errno == 0) _ _ s3
                (λ _.
                  Ends.bind P' Any P (wait_loop fuel s3) _ (wait_loop-safe fuel s3)
                    λ _ s4 _. end_wait-safe r1.ptr r2.ptr r1.value s4)
                λ _. end_wait-safe r1.ptr r2.ptr (sub_ℕ 0 r2.errno) s3)
            λ _. end_wait-safe r1.ptr 0 r1.value (record s { trace = t2 }))
        λ _. end_wait-safe stale_word 0 r0.value (record s { trace = t1 })
    where
      P : ℤ → State → Type 0
      P _ _ = Unit {0}

      P' : Unit {0} → State → Type 0
      P' _ _ = Unit {0}

      r0 : Reply
      r0 = env.answer s.trace xs_write

      t1 : Trace
      t1 = event xs_write r0 ∷ s.trace

      path : Call
      path = asprintf (codes "data/trigger-harness")

      r1 : Reply
      r1 = env.answer t1 path

      t2 : Trace
      t2 = event path r1 ∷ t1

      r2 : Reply
      r2 = env.answer t2 xs_watch_path

      s3 : State
      s3 = record s { trace = event xs_watch_path r2 ∷ t2 }

  -- If the first eight bytes of the two arrays differ, the fuzzing target makes no fault, and it
  -- returns 0 if it ends.
  pub my_init_module-crash :
      (fuel : ℕ) (a b : List ℕ) (s : State)
      → bytes_eq (take 8 a) (take 8 b) ≡ false
      → Ends (λ rc _. rc ≡ pos 0) Any (my_init_module fuel a b s)
  unfolding my_init_module test
  my_init_module-crash fuel a b s h =
      Ends.bind _ Any (λ rc _. rc ≡ pos 0) (wait_harness_trigger fuel s) _
        (wait_harness_trigger-safe fuel s) λ _ s1 _. rw h refl
