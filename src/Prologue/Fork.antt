-- ===== src/Prologue/Fork.antt =====
-- `fork_prologue` of server-common.c, without reports: who is parent, who is child, and how many
-- forks are made.
use cloning_apps.Base.{
  ℕ, ℤ, zero, suc, pos, ◌+◌, ◌≤◌, ◌≡◌, refl, ap, Bool, true, false, Option, none, some, [], ◌∷◌,
  arith, is_neg, is_zero, pos_part, if◌then◌else◌, minus_one, Bool-cases, inl, inr,
}
use cloning_apps.System.{Env, State, Call, Trace, gettimeofday, fork, event, stale_int, Run, Cmd}
use cloning_apps.System.Ends
use cloning_apps.System.Ends.{Ends, Never}
use cloning_apps.Net.{MySocket}
use cloning_apps.Prologue.{
  Round, goto_out, body_end, Prologue, fork_round, after_round, fork_loop, fork_prologue,
}

-- The forks of a trace, and the result of the newest.
abbrev pub is_fork : Call → Bool
is_fork fork = true
is_fork _ = false

abbrev pub forks : Trace → ℕ
forks [] = 0
forks (e ∷ t) = (if is_fork e.made then 1 else 0) + forks t

abbrev pub newest_fork : Trace → ℤ
newest_fork [] = pos 1
newest_fork (e ∷ t) = if is_fork e.made then e.reply.value else newest_fork t

-- The clock can be read.
abbrev pub ClockWorks : Env → Type 0
ClockWorks env = (t : Trace) → (env.answer t gettimeofday).value ≡ pos 0

-- What a run of at most `left` rounds has come to, by what it writes to `*is_child`.
abbrev pub ForkOutcome : ℕ → Trace → ℤ → Option Bool → Trace → Type 0
ForkOutcome left t rc (some true) u =
    (rc ≡ pos 0) × (is_zero (newest_fork u) ≡ true) × (forks u ≤ forks t + left)
ForkOutcome left t rc (some false) u = (rc ≡ pos 0) × (forks u ≡ forks t + left)
ForkOutcome left t rc none u =
    (rc ≡ pos 0) × (is_neg (newest_fork u) ≡ true) × (forks u ≤ forks t + left)

-- What one round comes to.
abbrev RoundOutcome : Trace → Round → Trace → Type 0
RoundOutcome t (goto_out rc sock) u =
    (rc ≡ pos 0) × (is_neg (newest_fork u) ≡ true) × (forks u ≡ forks t + 1)
RoundOutcome t (body_end rc pid sock port) u =
    (rc ≡ pos 0) × (newest_fork u ≡ pid) × (forks u ≡ forks t + 1)

ForkOutcome-later :
    (c : Option Bool) (left : ℕ) (t u v : Trace) (rc : ℤ)
    → forks u ≡ forks t + 1
    → ForkOutcome left u rc c v
    → ForkOutcome (suc left) t rc c v
ForkOutcome-later none left t u v rc one (a, b, d) = (a, b, omega arith)
ForkOutcome-later (some true) left t u v rc one (a, b, d) = (a, b, omega arith)
ForkOutcome-later (some false) left t u v rc one (a, d) = (a, omega arith)

module _ ⦃env : Env⦄ (rounds : ℕ) (works : ClockWorks env) where
  fork_round-RoundOutcome :
      (i : ℕ) (mysock : MySocket) (myport : ℕ) (s : State)
      → s.globals.do_send_time ≡ false
      → Ends
          (λ r s'. RoundOutcome s.trace r s'.trace × (s'.globals.do_send_time ≡ false))
          Never
          (fork_round rounds i mysock myport s)
  unfolding fork_round
  fork_round-RoundOutcome i mysock myport s quiet =
      let a = env.answer s.trace gettimeofday in
      let t1 : Trace = event gettimeofday a ∷ s.trace in
      let f = env.answer t1 fork in ground (arith, works s.trace, works (event fork f ∷ t1))

  -- The outcome of the loop, where `left` rounds are to go since `t`.
  abbrev pub Outcome : ℕ → Trace → Run Prologue → Type 0
  Outcome left t = Ends (λ (rc, is_child, _) s'. ForkOutcome left t rc is_child s'.trace) Never

  after_round-Outcome :
      (r : Round) (next : ℤ → ℤ → MySocket → ℕ → Cmd Prologue) (left : ℕ) (t : Trace) (s : State)
      → RoundOutcome t r s.trace
      → ((pid : ℤ) (sock : MySocket) (port : ℕ)
          → is_zero pid ≡ false
          → Outcome left s.trace (next (pos 0) pid sock port s))
      → Outcome (suc left) t (after_round rounds r next s)
  unfolding after_round
  after_round-Outcome (goto_out rc sock) next left t s (zero_rc, failed, one) more =
      (zero_rc, failed, omega arith)
  after_round-Outcome (body_end rc pid sock port) next left t s (zero_rc, newest, one) more =
      elim (Bool-cases (is_zero pid)) [
        | inl child ↦ rw child (zero_rc, rw newest child, omega arith)
        | inr parent ↦
            rw (parent, zero_rc)
              (Ends.mono _ _ _ _ (next (pos 0) pid sock port s) (more pid sock port parent)
                (λ (rc', c, _) s' o. ForkOutcome-later c left t s.trace s'.trace rc' one o)
                (λ s' h. h))
      ]

  -- A loop with a round to go, whatever `rc` holds before it.
  fork_loop-Outcome_first :
      (left i : ℕ) (rc pid : ℤ) (mysock : MySocket) (myport : ℕ) (s : State)
      → s.globals.do_send_time ≡ false
      → ((pid' : ℤ) (sock : MySocket) (port : ℕ) (s1 : State)
          → s1.globals.do_send_time ≡ false
          → is_zero pid' ≡ false
          → Outcome left s1.trace (fork_loop rounds left (i + 1) (pos 0) pid' sock port s1))
      → Outcome (suc left) s.trace (fork_loop rounds (suc left) i rc pid mysock myport s)
  unfolding fork_loop
  fork_loop-Outcome_first left i rc pid mysock myport s quiet more =
      Ends.bind_total (λ r s'. RoundOutcome s.trace r s'.trace × (s'.globals.do_send_time ≡ false))
        _ _ (fork_round rounds i mysock myport s) _
        (fork_round-RoundOutcome i mysock myport s quiet)
        λ r s1 (o, quiet').
          after_round-Outcome r (fork_loop rounds left (i + 1)) left s.trace s1 o
            λ pid' sock port p. more pid' sock port s1 quiet' p

  fork_loop-Outcome :
      (left i : ℕ) (pid : ℤ) (mysock : MySocket) (myport : ℕ) (s : State)
      → s.globals.do_send_time ≡ false
      → is_zero pid ≡ false
      → Outcome left s.trace (fork_loop rounds left i (pos 0) pid mysock myport s)
  fork_loop-Outcome zero i pid mysock myport s quiet parent =
      unfold fork_loop in rw parent (refl, omega arith)
  fork_loop-Outcome (suc left) i pid mysock myport s quiet parent =
      fork_loop-Outcome_first left i (pos 0) pid mysock myport s quiet
        λ pid' sock port s1 q p. fork_loop-Outcome left (i + 1) pid' sock port s1 q p

  -- Without reports, with a clock that works and at least one child to make, `fork_prologue`
  -- returns 0 in every case: as a child, after the fork that returned 0; as the parent, after
  -- exactly `children_num` forks; and also after a fork that failed, when nothing is written to
  -- `*is_child`.
  pub fork_prologue-Outcome :
      (mysock : MySocket) (myport n : ℕ) (s : State)
      → s.globals.do_send_time ≡ false
      → s.globals.children_num ≡ pos (suc n)
      → Outcome (suc n) s.trace (fork_prologue rounds mysock myport s)
  unfolding fork_prologue
  fork_prologue-Outcome mysock myport n s quiet children =
      let e : pos_part s.globals.children_num ≡ suc n = ap pos_part children in
      rw e (
        fork_loop-Outcome_first n 0 stale_int minus_one mysock myport s quiet
          λ pid sock port s1 q p. fork_loop-Outcome n 1 pid sock port s1 q p)
