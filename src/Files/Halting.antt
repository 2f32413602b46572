-- ===== src/Files/Halting.antt =====
-- That the file server of files.c comes to an end on a system that falls silent.
use cloning_apps.Base.{
  ℕ, ℤ, zero, suc, ◌+◌, ◌<◌, Option, none, some, arith, is_neg, is_zero, length,
}
use cloning_apps.System.{Env, State, Run}
use cloning_apps.System.Ends
use cloning_apps.System.Ends.{Ends, Never}
use cloning_apps.Net.{
  OsServer, default_server_port, net_msg_cleanup, tcp_server_start, tcp_server_stop,
  tcp_server_recv_msg,
}
use cloning_apps.Net.Sockets.{SocketCalls}
use cloning_apps.Servers.{stale_server}
use cloning_apps.Servers.Halting.{tcp_server_start-Listens, tcp_server_stop-Returns}
use cloning_apps.Servers.Returns.{accepted-Returns}
use cloning_apps.Servers.Returns.Calls.{Silent, recv-Longer, cleanup-Longer}
use cloning_apps.Files.{serve_files, handle_request, run_started, run_server}
use cloning_apps.Files.Writers.{WriteCalls}
use cloning_apps.Files.Create.{WholeWords}
use cloning_apps.Files.Growth.{handle_request-Grows}
use cloning_apps.Files.Descriptors.{Open}
use cloning_apps.Files.Lifetime.{run_server-ClosesDown}

module _ ⦃env : Env⦄ (h : WriteCalls env) (whole : WholeWords env) (n : ℕ)
    (silent : Silent env n) where
  abbrev Returns : Run ℤ → Type 0
  Returns = Ends (λ _ _. Unit {0}) Never

  serve_files-Returns :
      (fuel : ℕ) (server : OsServer) (s : State)
      → 4194304 < fuel
      → n + 4194304 < fuel + length s.trace
      → Returns (serve_files fuel server s)
  unfolding serve_files
  serve_files-Returns zero server s big enough = absurd (omega arith)
  serve_files-Returns (suc fuel) server s big enough =
      accepted-Returns n silent _ _ (λ rc. rc) server s (λ _ _ _. tt)
        λ (rc, m) s1 less longer.
          Ends.bind_total _ Never _ (tcp_server_recv_msg m s1) _ (recv-Longer n silent m s1)
            λ (rc', m') s2 (le, _).
              Ends.branch _ _ (is_neg rc') _ _ s2
                (λ _.
                  Ends.bind_total _ Never _ (net_msg_cleanup m' s2) _ (cleanup-Longer m' s2)
                    λ _ _ _. tt)
                λ _.
                  Ends.bind_total _ Never _ (handle_request fuel rc' m' s2) _
                    (handle_request-Grows h whole fuel rc' m' s2 (omega (arith, enough, less)))
                    λ r s3 le'.
                      Ends.bind_total _ Never _ (net_msg_cleanup m' s3) _ (cleanup-Longer m' s3)
                        λ _ s4 le''.
                          Ends.branch _ _ r.keep_running _ _ s4
                            (λ _.
                              serve_files-Returns fuel server s4 (omega (arith, enough, less))
                                (omega (arith, enough, longer, le, le', le'')))
                            λ _. tt

  run_started-Returns :
      (fuel : ℕ) (rc : ℤ) (server : Option OsServer) (s : State)
      → n + 4194304 < fuel
      → Returns (run_started fuel rc server s)
  unfolding run_started
  run_started-Returns fuel rc none s enough = tt
  run_started-Returns fuel rc (some server) s enough =
      Ends.branch _ _ (is_zero rc) _ _ s
        (λ _.
          Ends.bind_total _ Never _ (serve_files fuel server s) _
            (serve_files-Returns fuel server s (omega arith) (omega arith))
            λ rc' s1 _.
              Ends.bind_total _ Never _ (tcp_server_stop (some server) s1) _
                (tcp_server_stop-Returns server s1) λ _ _ _. tt)
        λ _. tt

  run_server-Returns : (fuel : ℕ) (s : State) → n + 4194304 < fuel → Returns (run_server fuel s)
  unfolding run_server
  run_server-Returns fuel s enough =
      Ends.bind_total _ Never _ (tcp_server_start (some stale_server) default_server_port s) _
        (tcp_server_start-Listens stale_server default_server_port s)
        λ (rc, server) s1 _. run_started-Returns fuel rc server s1 enough

  -- If `setsockopt` succeeds, `bind` never returns a positive number, each write fails with a
  -- negative number or makes progress, a write of eight bytes is never cut short, and from `n`
  -- calls on no connection comes and nothing can be received, then `run_server` returns, with
  -- `n + 4194305` rounds for each loop, and has closed each descriptor that it opened exactly once.
  pub run_server-Finishes :
      SocketCalls env
      → (fd : ℤ) (fuel : ℕ) (s : State) → n + 4194304 < fuel
      → Ends (λ _ s'. Open fd 0 s.trace s'.trace) Never (run_server fuel s)
  run_server-Finishes sockets fd fuel s enough =
      Ends.mono _ _ _ Never (run_server fuel s)
        (Ends.both _ _ _ _ (run_server fuel s) (run_server-Returns fuel s enough)
          (run_server-ClosesDown sockets whole fd fuel s))
        (λ _ _ both. both.1) λ _ never. never.0
