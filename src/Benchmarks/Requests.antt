-- ===== src/Benchmarks/Requests.antt =====
-- The requests of measure-fork.c and memory-overhead.c, over any account of common/net.c that their
-- calls aside leave as it is.
use cloning_apps.Base.{
  ℕ, ℤ, pos, ◌≡◌, ◌∷◌, ◌==◌, minus_one, false, ◌≢◌, List, Option, none, some, refl, Bool, is_neg,
  is_zero, if◌then◌else◌, true, Bool-cases, inl, inr, codes, has_prefix,
}
use cloning_apps.System.{
  Env, State, Call, Timeval, print_line, Run, fork, get_page_size, clock_gettime, event, Reply,
  pure, ◌>>=◌, ◌>>◌,
}
use cloning_apps.Globals.{Globals}
use cloning_apps.System.Ends
use cloning_apps.System.Ends.{Ends, Never}
use cloning_apps.Boot.{os_exit, os_exit-Ends}
use cloning_apps.Net.{NetMsg, OsServer}
use cloning_apps.Servers.Contract.{Contract}
use cloning_apps.Memory.{ensure_page_size, read_clock, mem_touch_pages}
use cloning_apps.Benchmarks.{
  goto_out, stats_line, print_stats, print_duration, handle_fork, touch_again, handle_overhead,
}
use cloning_apps.Benchmarks.Loop.{Leaves, HandlesRequests}

-- After the call.
abbrev pub stepped : Env → Call → State → State
stepped env made s = record s { trace = event made (env.answer s.trace made) ∷ s.trace }

-- The account does not depend on the global variables and the memory, and the calls `aside` leave
-- it as it is.
pub record Passive (env : Env) (server : OsServer) (c : Contract env server) (aside : Call → Bool)
    : Type 0 where
  pub steps :
      (made : Call) (m : NetMsg) (s : State)
      → aside made ≡ true
      → c.Got m s
      → c.Got m (stepped env made s)
  pub stores :
      (m : NetMsg) (s : State) (g : Globals) (memory : ℕ → ℕ)
      → c.Got m s
      → c.Got m (record { trace = s.trace; globals = g; memory = memory })

-- The result of `mem_touch_pages` behind its last test.
checked :
    (rc : ℤ) (same : Bool) (d : Timeval)
    → is_zero rc ≡ true
    → let r : ℤ × Option Timeval = if same then (rc, some d) else (minus_one, none) in
      if is_zero r.0 then r.1 ≢ none else Unit
checked rc true d e = rw e (λ h. cc)
checked rc false d e = tt

module _ ⦃env : Env⦄ (server : OsServer) (c : Contract env server) where
  got_stopped : (m : NetMsg) (s : State) → c.Got m s → c.Stopped s
  got_stopped m s got = c.ready_stopped m s (c.got_again m s got)

  -- measure-fork.c never jumps to `out`.
  pub handle_fork-Leaves :
      (aside : Call → Bool)
      → Passive env server c aside
      → aside fork ≡ true
      → HandlesRequests server c (λ _. ⊥) handle_fork
  unfolding handle_fork
  handle_fork-Leaves aside passive forks rc m s got =
      Ends.branch _ _ (has_prefix (codes "fork") m.contents) _ _ s
        (λ _.
          Ends.branch _ _ (is_zero r.value) _ _ s1
            (λ _. os_exit-Ends _ _ (pos 0) s1 (got_stopped m s1 got1))
            λ _. (elim (Bool-cases (is_neg r.value)) [
              | inl bad ↦ rw bad (c.got_spent m s1 got1)
              | inr good ↦ rw good (c.got_spent m s1 got1)
            ]))
        λ _. (elim (Bool-cases (has_prefix (codes "stop") m.contents)) [
          | inl stop ↦ rw stop (c.got_spent m s got)
          | inr other ↦ rw other (c.got_spent m s got)
        ])
    where
      r : Reply
      r = env.answer s.trace fork

      s1 : State
      s1 = stepped env fork s

      got1 : c.Got m s1
      got1 = passive.steps fork m s forks got

  module _ (aside : Call → Bool) (passive : Passive env server c aside)
      (has_page_size : aside get_page_size ≡ true) (has_clock : aside clock_gettime ≡ true)
      (prints : (text : List ℕ) → aside (print_line text) ≡ true) where
    abbrev Stays : {A : Type 0} → NetMsg → Run A → Type 0
    Stays m = Ends (λ _ s'. c.Got m s') Never

    ensure_page_size-Stays : (m : NetMsg) (s : State) → c.Got m s → Stays m (ensure_page_size s)
    unfolding ensure_page_size
    ensure_page_size-Stays m s got =
        Ends.branch _ _ (s.globals.os_page_size == 0) _ _ s
          (λ _.
            passive.stores m (stepped env get_page_size s) _ s.memory
              (passive.steps get_page_size m s has_page_size got))
          λ _. got

    read_clock-Stays :
        (wanted : Bool) (m : NetMsg) (s : State) → c.Got m s → Stays m (read_clock wanted s)
    unfolding read_clock
    read_clock-Stays wanted m s got =
        Ends.branch _ _ wanted _ _ s (λ _. passive.steps clock_gettime m s has_clock got) λ _. got

    -- A touch that returns 0 has assigned the duration that it was asked for.
    abbrev Touched : NetMsg → ℤ × Option Timeval → State → Type 0
    Touched m (rc, duration) s' = c.Got m s' × (if is_zero rc then duration ≢ none else Unit)

    mem_touch_pages-Touched :
        (start pages_num : ℕ) (m : NetMsg) (s : State)
        → c.Got m s
        → Ends (Touched m) Never (mem_touch_pages start pages_num true s)
    unfolding mem_touch_pages
    mem_touch_pages-Touched start pages_num m s got =
        Ends.bind_total _ _ _ (ensure_page_size s) _ (ensure_page_size-Stays m s got)
          λ page_size s1 got1.
            Ends.bind_total _ _ _ (read_clock true s1) _ (read_clock-Stays true m s1 got1)
              λ (rc, before) s2 got2. elim (Bool-cases (is_zero rc)) [
                | inr bad ↦ rw bad (got2, rw bad tt)
                | inl good ↦ rw good (
                    Ends.bind_total _ _ _ (read_clock true _) _
                      (read_clock-Stays true m _ (passive.stores m s2 s2.globals _ got2))
                      λ (rc', after) s3 got3. elim (Bool-cases (is_zero rc')) [
                        | inl good' ↦ rw good' (got3, checked rc' _ _ good')
                        | inr bad' ↦ rw bad' (got3, rw bad' tt)
                      ])
              ]

    print_duration-Stays :
        (prefix : List ℕ) (pages_num : ℕ) (duration : Option Timeval) (m : NetMsg) (s : State)
        → duration ≢ none
        → c.Got m s
        → Stays m (print_duration prefix pages_num duration s)
    unfolding print_stats
    print_duration-Stays prefix pages_num none m s assigned got = absurd (assigned refl)
    print_duration-Stays prefix pages_num (some d) m s assigned got =
        passive.steps (print_line (stats_line prefix pages_num d)) m s
          (prints (stats_line prefix pages_num d)) got

    module _ (Jumped : State → Type 0) (jumps : (m : NetMsg) (s : State) → c.Got m s → Jumped s)
        (forks : aside fork ≡ true) where
      -- A child that touched the pages exits, or jumps to `out` like the parent.
      child-Leaves :
          (start pages_num : ℕ) (m : NetMsg) (s : State)
          → c.Got m s
          → Ends (Leaves server c Jumped m) c.Stopped (
              (do
                (rc, duration) ← mem_touch_pages start pages_num true
                if is_zero rc
                    then print_duration (codes "child") pages_num duration >> os_exit (pos 0)
                    else pure (goto_out rc))
                s)
      child-Leaves start pages_num m s got =
          Ends.bind_total _ _ _ (mem_touch_pages start pages_num true s) _
            (mem_touch_pages-Touched start pages_num m s got)
            λ (rc, d) s1 (got1, has). elim (Bool-cases (is_zero rc)) [
              | inr bad ↦ rw bad (jumps m s1 got1)
              | inl good ↦ rw good (
                  Ends.bind_total _ _ _ (print_duration (codes "child") pages_num d s1) _
                    (print_duration-Stays (codes "child") pages_num d m s1 (rw good at has) got1)
                    λ _ s2 got2. os_exit-Ends _ _ (pos 0) s2 (got_stopped m s2 got2))
            ]

      touch_again-Leaves :
          (rc : ℤ) (start pages_num : ℕ) (m : NetMsg) (s : State)
          → c.Got m s
          → Ends (Leaves server c Jumped m) c.Stopped (touch_again rc start pages_num s)
      unfolding touch_again
      touch_again-Leaves rc start pages_num m s got =
          Ends.branch _ _ s.globals.do_fork _ _ s
            (λ _.
              Ends.branch _ _ (is_neg r.value) _ _ s1 (λ _. jumps m s1 got1)
                λ _.
                  Ends.branch _ _ (is_zero r.value) _ _ s1
                    (λ _. child-Leaves start pages_num m s1 got1) λ _. c.got_spent m s1 got1)
            λ _.
              Ends.bind_total _ _ _ (mem_touch_pages start pages_num true s) _
                (mem_touch_pages-Touched start pages_num m s got)
                λ (rc', d) s2 (got2, has). elim (Bool-cases (is_zero rc')) [
                  | inr bad ↦ rw bad (jumps m s2 got2)
                  | inl good ↦ rw good (
                      Ends.bind_total _ _ _ (print_duration (codes "parent") pages_num d s2) _
                        (print_duration-Stays (codes "parent") pages_num d m s2 (rw good at has)
                          got2)
                        λ _ s3 got3. c.got_spent m s3 got3)
                ]
        where
          r : Reply
          r = env.answer s.trace fork

          s1 : State
          s1 = stepped env fork s

          got1 : c.Got m s1
          got1 = passive.steps fork m s forks got

      pub handle_overhead-Leaves :
          (start pages_num : ℕ) → HandlesRequests server c Jumped (handle_overhead start pages_num)
      unfolding handle_overhead
      handle_overhead-Leaves start pages_num rc m s got =
          Ends.branch _ _ (has_prefix (codes "overhead") m.contents) _ _ s
            (λ _. touch_again-Leaves rc start pages_num m s got)
            λ _. elim (Bool-cases (has_prefix (codes "stop") m.contents)) [
              | inl stop ↦ rw stop (c.got_spent m s got)
              | inr other ↦ rw other (c.got_spent m s got)
            ]
