-- ===== src/Benchmarks/Refines.antt =====
-- The loops of measure-fork.c and memory-overhead.c keep to the protocol of Servers/Session, and so
-- what they have open at each of their ends is known.
use cloning_apps.Base.{ℕ, ℤ, ◌≡◌, ◌==◌, is_neg, true, false, refl, arith}
use cloning_apps.System.{
  Env, State, Trace, Call, Reply, fork, get_page_size, clock_gettime, print_line,
}
use cloning_apps.System.Ends
use cloning_apps.System.Ends.{Ends}
use cloning_apps.System.Ledger.{Owns, Even, OwnsOne}
use cloning_apps.Net.{NetMsg, OsServer}
use cloning_apps.Servers.Contract.Protocol.{protocol}
use cloning_apps.Servers.Session.{
  Phase, Follows, next, here, side_call, Allowed, Harmless, Follows-Holds, connection_of, buffer_of,
}
use cloning_apps.Servers.Session.Messages.{Buffered}
use cloning_apps.Benchmarks.{
  LoopEnd, ended, left_by_goto, handle_fork, handle_overhead, serve_requests,
}
use cloning_apps.Benchmarks.Loop.{EndsBehind, RunsToEnd, serve_requests-RunsToEnd}
use cloning_apps.Benchmarks.Requests.{Passive, handle_fork-Leaves, handle_overhead-Leaves}

-- measure-fork.c forks; memory-overhead.c also asks for the page size and the time, and prints a
-- duration. Neither sends.
abbrev pub forks : Allowed
forks = record { answers = false; aside = λ made. elim made [ fork ↦ true | _ ↦ false ] }

abbrev pub touches : Allowed
touches = record {
  answers = false;
  aside = λ made. elim made [
    | fork ↦ true
    | get_page_size ↦ true
    | clock_gettime ↦ true
    | print_line _ ↦ true
    | _ ↦ false
  ];
}

touches-Harmless :
    (fd : ℤ) (p : ℕ) (c : Call) (r : Reply) → touches.aside c ≡ true → Harmless fd p c r
touches-Harmless fd p fork r h = omega arith
touches-Harmless fd p get_page_size r h = omega arith
touches-Harmless fd p clock_gettime r h = omega arith
touches-Harmless fd p (print_line text) r h = omega arith
touches-Harmless fd p c r h = ground arith

module _ ⦃env : Env⦄ (server : OsServer) where
  protocol-Passive :
      (may : Allowed) (t : Trace) → Passive env server (protocol server may t) may.aside
  protocol-Passive may t = record {
    steps = λ made m s aside ((v, full, f), n).
        ((v, full, next f (side_call m.connection m.netbuf m.contents made _ aside)), n);
    stores = λ m s g memory got. got;
  }

  -- Whatever the clients and the system answer, the loop of measure-fork.c makes no fault and never
  -- jumps to `out`. Its calls keep to the protocol, with forks and nothing else while it has a
  -- buffer: they end in the phase between two clients when it ends, and in some phase where it is
  -- stopped after any number of rounds or a forked child exits.
  pub measure_fork-Follows :
      (fuel : ℕ) (s : State)
      → RunsToEnd server
          (protocol server forks s.trace)
          (λ _. ⊥)
          (serve_requests fuel server handle_fork s)
  measure_fork-Follows fuel s =
      serve_requests-RunsToEnd server (protocol server forks s.trace) (λ _. ⊥) handle_fork
        (handle_fork-Leaves server (protocol server forks s.trace) forks.aside
          (protocol-Passive forks s.trace) refl)
        fuel s here

  -- A message with its connection and its buffer.
  abbrev Leaks : Trace → State → Type 0
  Leaks t s' = (m : NetMsg) × Buffered server touches t m s'

  overhead-Follows :
      (fuel start pages_num : ℕ) (s : State)
      → RunsToEnd server
          (protocol server touches s.trace)
          (Leaks s.trace)
          (serve_requests fuel server (handle_overhead start pages_num) s)
  overhead-Follows fuel start pages_num s =
      serve_requests-RunsToEnd server (protocol server touches s.trace) (Leaks s.trace)
        (handle_overhead start pages_num)
        (handle_overhead-Leaves server (protocol server touches s.trace) touches.aside
          (protocol-Passive touches s.trace) refl refl (λ text. refl) (Leaks s.trace)
          (λ m s' got. (m, got.0)) refl start pages_num)
        fuel s here

  -- The outcome of the loop of memory-overhead.c: behind it everything is given back; by the jump
  -- it leaves a connection and a buffer in use, and nothing else.
  abbrev pub Left : Trace → LoopEnd → State → Type 0
  Left t (ended rc) s' = Even t s'.trace
  Left t (left_by_goto rc) s' =
      (m : NetMsg) × (is_neg m.connection ≡ false)
      × ((m.netbuf == 0) ≡ false)
      × Owns m.connection m.netbuf t s'.trace

  module _ (t : Trace) where
    owned :
        {u : Trace} {a : Phase}
        → Follows server.listener_socket.s touches t u a
        → Owns (connection_of a) (buffer_of a) t u
    owned f (fd, p) =
        Follows-Holds fd p server.listener_socket.s touches (touches-Harmless fd p) t f

    ends-Left :
        (e : LoopEnd) (s' : State)
        → EndsBehind server (protocol server touches t) (Leaks t) e s'
        → Left t e s'
    ends-Left (ended rc) s' f = owned f
    ends-Left (left_by_goto rc) s' (m, (v, full, f)) = (m, v, full, owned f)

  -- The loop of memory-overhead.c makes no fault. It has closed each connection and freed each
  -- buffer exactly once when it ends behind its loop. When it leaves by the jump to `out`, it leaves
  -- open just one connection, and in use just that connection's buffer. It owns at most one of each
  -- when it is stopped after any number of rounds, and in a forked child when that exits.
  pub overhead-Left :
      (fuel start pages_num : ℕ) (s : State)
      → Ends
          (Left s.trace)
          (λ s'. OwnsOne s.trace s'.trace)
          (serve_requests fuel server (handle_overhead start pages_num) s)
  overhead-Left fuel start pages_num s =
      Ends.mono _ _ _ _ (serve_requests fuel server (handle_overhead start pages_num) s)
        (overhead-Follows fuel start pages_num s) (λ e s' k. ends-Left s.trace e s' k)
        λ s' (a, f). (connection_of a, buffer_of a, owned s.trace f)
