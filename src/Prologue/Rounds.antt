-- ===== src/Prologue/Rounds.antt =====
-- One round of the loop of `fork_prologue` in server-common.c, with reports.
use cloning_apps.Base.{
  ℕ, ℤ, List, suc, pos, ◌≡◌, refl, true, false, some, arith, is_neg, is_zero, is_zero-pos, is_pos,
  if◌then◌else◌, minus_one, Bool-cases, inl, inr, ◌∷◌,
}
use cloning_apps.System.{
  Env, State, Trace, Timeval, gettimeofday, fork, event, Reply, and_then, pure,
}
use cloning_apps.Globals.{Globals}
use cloning_apps.System.Ends
use cloning_apps.System.Ends.{Ends, Never}
use cloning_apps.System.Ledger.{Owns-Even}
use cloning_apps.Net.{MySocket}
use cloning_apps.Net.Sockets.{SocketCalls}
use cloning_apps.Time.{timersub, send_time}
use cloning_apps.Prologue.{
  body_end, port_minus, parent_suffix, child_suffix, reopen_socket, report_fork, fork_round,
}
use cloning_apps.Prologue.Fork.{forks}
use cloning_apps.Prologue.Reports.{send_time-Still}
use cloning_apps.Prologue.Sockets.{HasSocket, Limit, RoundSockets, reopen_socket-Reopened}

module _ ⦃env : Env⦄ (h : SocketCalls env) (t : Trace) (rounds : ℕ) where
  -- A report that follows, whose result is dropped.
  reported :
      (mysock sock : MySocket) (port n : ℕ) (rc pid : ℤ) (res : Timeval) (text : List ℕ) (s : State)
      → rc ≡ pos 0
      → HasSocket t sock s
      → (if is_zero pid then sock.port ≡ port else sock ≡ mysock)
      → forks s.trace ≡ n
      → (g : Globals) → s.globals ≡ g
      → Ends (RoundSockets t mysock port n g) (Limit t) (
          and_then
            (send_time rounds (some sock) (some res) (some text) s)
            λ _. pure (body_end rc pid sock port))
  reported mysock sock port n rc pid res text s e (valid, held) named f g same =
      Ends.bind _ _ _ (send_time rounds (some sock) (some res) (some text) s) _
        (Ends.mono _ _ _ _ (send_time rounds (some sock) (some res) (some text) s)
          (send_time-Still rounds sock (some res) (some text) s) (λ _ s' q. q)
          λ s' q. (sock.s, Owns-Even sock.s 0 t s.trace s'.trace held q.0))
        λ _ s' (b, f', g').
          (e, (valid, Owns-Even sock.s 0 t s.trace s'.trace held b), refl, named, omega arith, cc)

  report_fork-RoundSockets :
      (i n : ℕ) (rc pid : ℤ) (mysock : MySocket) (port : ℕ) (res : Timeval) (s : State)
      → rc ≡ pos 0
      → is_neg pid ≡ false
      → HasSocket t mysock s
      → forks s.trace ≡ n
      → Ends
          (RoundSockets t mysock port n s.globals)
          (Limit t)
          (report_fork rounds i rc pid mysock port res s)
  unfolding report_fork
  report_fork-RoundSockets i n rc pid mysock port res s e forked has f =
      Ends.branch _ _ (is_pos pid) _ _ s
        (λ parent.
          reported mysock mysock port n rc pid res (parent_suffix (pos i)) s e has (ground arith) f
            s.globals refl)
        λ child.
          Ends.bind_total _ _ _ (reopen_socket rounds mysock port s) _
            (reopen_socket-Reopened h t rounds mysock port s has)
            λ (rc', sock) s1 (o, f', same). elim (Bool-cases (is_zero rc')) [
              | inl good ↦ rw good (
                  reported mysock sock port n rc' pid res (child_suffix (pos i)) s1
                    (is_zero-pos rc' good) (rw good at o).0 (ground (arith, (rw good at o).1))
                    (omega arith) s.globals same)
              | inr bad ↦ rw bad (rw bad (minus_one, rw bad at o))
            ]

  pub fork_round-RoundSockets :
      (i : ℕ) (mysock : MySocket) (myport : ℕ) (s : State)
      → s.globals.do_send_time ≡ true
      → HasSocket t mysock s
      → Ends
          (RoundSockets t mysock (port_minus myport 1) (suc (forks s.trace)) s.globals)
          (Limit t)
          (fork_round rounds i mysock myport s)
  unfolding fork_round
  fork_round-RoundSockets i mysock myport s reports (valid, held) =
      elim (Bool-cases (is_zero before.value)) [
        | inr bad ↦ rw bad (rw bad (mysock.s, λ b. omega (arith, held b)))
        | inl good ↦ rw good (elim (Bool-cases (is_neg child.value)) [
          | inl failed ↦ rw failed (rw good (valid, λ b. omega (arith, held b)))
          | inr forked ↦ rw forked (elim (Bool-cases (is_zero after.value)) [
            | inr bad ↦ rw bad (rw bad (mysock.s, λ b. omega (arith, held b)))
            | inl good' ↦ rw good' (
                Ends.branch _ _ s.globals.do_send_time _ _ s3
                  (λ _.
                    report_fork-RoundSockets i (suc (forks s.trace)) after.value child.value mysock
                      (port_minus myport 1) (timersub after.time before.time) s3
                      (is_zero-pos after.value good') forked (valid, λ b. omega (arith, held b))
                      (omega arith))
                  λ silent. cc)
          ])
        ])
      ]
    where
      before : Reply
      before = env.answer s.trace gettimeofday

      t1 : Trace
      t1 = event gettimeofday before ∷ s.trace

      child : Reply
      child = env.answer t1 fork

      after : Reply
      after = env.answer (event fork child ∷ t1) gettimeofday

      s3 : State
      s3 = record s { trace = event gettimeofday after ∷ event fork child ∷ t1 }
