-- ===== src/Files/Lifetime.antt =====
-- The file server from `tcp_server_start` to `tcp_server_stop`: `run_server` of files.c.
use cloning_apps.Base.{ℕ, ℤ, Option, none, some, arith, is_zero, Bool-cases, inl, inr}
use cloning_apps.System.{Env, State, Trace, Run}
use cloning_apps.System.Ends
use cloning_apps.System.Ends.{Ends, Never}
use cloning_apps.System.Ledger.{Balanced, is_fd, is_fd-le}
use cloning_apps.Net.{OsServer, default_server_port, tcp_server_start, tcp_server_stop}
use cloning_apps.Net.Sockets.{SocketCalls}
use cloning_apps.Net.Tcp.{Started, tcp_server_start-Started, tcp_server_stop-Balanced}
use cloning_apps.Servers.{stale_server}
use cloning_apps.Files.{serve_files, run_started, run_server}
use cloning_apps.Files.Create.{WholeWords}
use cloning_apps.Files.Descriptors.{Open, OpenAtMost}
use cloning_apps.Files.Loop.{serve_files-ClosesAll, Open-Holds}

module _ ⦃env : Env⦄ (h : SocketCalls env) (whole : WholeWords env) (fd : ℤ) where
  -- The descriptor `fd` is closed as often as it is opened when the server returns, and is opened at
  -- most three times more often, for the listener, a connection and a file, when it is stopped.
  abbrev pub ClosesDown : Trace → Run ℤ → Type 0
  ClosesDown t = Ends (λ _ s'. Open fd 0 t s'.trace) (λ s'. OpenAtMost fd 3 t s'.trace)

  run_started-ClosesDown :
      (fuel : ℕ) (rc : ℤ) (server : Option OsServer) (t : Trace) (s : State)
      → Started fd 0 t (rc, server) s
      → ClosesDown t (run_started fuel rc server s)
  unfolding run_started
  run_started-ClosesDown fuel rc none t s started = absurd started
  run_started-ClosesDown fuel rc (some server) t s started = elim (Bool-cases (is_zero rc)) [
    | inr bad ↦ rw bad (rw bad at started).0
    | inl good ↦ rw good (
        Ends.bind _ _ _ (serve_files fuel server s) _
          (Ends.mono (λ _ s'. Open fd 0 s.trace s'.trace) (λ s'. OpenAtMost fd 2 s.trace s'.trace)
            (λ _ s'. Open fd 0 s.trace s'.trace) (λ s'. OpenAtMost fd 3 t s'.trace)
            (serve_files fuel server s) (serve_files-ClosesAll whole fd fuel server s) (λ _ s' o. o)
            λ s' o. stopped server s s' (rw good at started).1.0 o)
          λ rc' s1 o.
            Ends.bind_total (λ _ s'. Balanced fd 0 t s'.trace) _ _
              (tcp_server_stop (some server) s1) _
              (tcp_server_stop-Balanced fd 0 server t s1 (
                Open-Holds whole fd server.listener_socket.s 0 t s1.trace
                  (served server s s1 (rw good at started).1.0 o)))
              λ _ s2 b. b.0)
  ]
    where
      stopped :
          (server : OsServer) (s s' : State)
          → Open fd (is_fd fd server.listener_socket.s) t s.trace
          → OpenAtMost fd 2 s.trace s'.trace
          → OpenAtMost fd 3 t s'.trace
      stopped server s s' l o = omega (arith, is_fd-le fd 0 server.listener_socket.s)

      served :
          (server : OsServer) (s s' : State)
          → Open fd (is_fd fd server.listener_socket.s) t s.trace
          → Open fd 0 s.trace s'.trace
          → Open fd (is_fd fd server.listener_socket.s) t s'.trace
      served server s s' l o = omega arith

  -- If `setsockopt` succeeds, `bind` never returns a positive number, and a write of eight bytes is
  -- never cut short, then `run_server` makes no fault, has closed each descriptor that it opened
  -- exactly once when it returns, the listener included, and when it is stopped after any number of
  -- rounds has opened each descriptor number at most three times more often than it closed it.
  pub run_server-ClosesDown : (fuel : ℕ) (s : State) → ClosesDown s.trace (run_server fuel s)
  unfolding run_server
  run_server-ClosesDown fuel s =
      Ends.bind_total (Started fd 0 s.trace) _ _
        (tcp_server_start (some stale_server) default_server_port s) _
        (tcp_server_start-Started fd 0 h stale_server default_server_port s)
        λ (rc, server) s1 started. run_started-ClosesDown fuel rc server s.trace s1 started
