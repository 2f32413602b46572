-- ===== src/Servers/Lifetime.antt =====
-- The TCP servers from `tcp_server_start` to `tcp_server_stop`: server-tcp.c.
use cloning_apps.Base.{
  ℕ, ℤ, ◌≡◌, true, some, none, Option, arith, is_zero, Bool-cases, inl, inr, refl,
}
use cloning_apps.System.{Env, State, Trace, Run, Cmd}
use cloning_apps.System.Ends
use cloning_apps.System.Ends.{Ends, Never}
use cloning_apps.System.Ledger.{Balanced}
use cloning_apps.Net.{OsServer, default_server_port, tcp_server_start, tcp_server_stop}
use cloning_apps.Net.Sockets.{SocketCalls}
use cloning_apps.Net.Tcp.{Started, Listens, tcp_server_start-Started, tcp_server_stop-Balanced}
use cloning_apps.Servers.{stale_server, serve_started, start_and_serve, until_stop}
use cloning_apps.Servers.Books.{GivesBack}

abbrev pub Any : State → Type 0
Any _ = Unit {0}

module _ ⦃env : Env⦄ (fd : ℤ) (p : ℕ) (h : SocketCalls env) where
  -- Everything was given back.
  abbrev pub Clean : State → Run ℤ → Type 0
  Clean s = Ends (λ _ s'. Balanced fd p s.trace s'.trace) Any

  serve_started-Clean :
      (serve : OsServer → Cmd ℤ) (t : Trace) (rc : ℤ) (server : Option OsServer) (s : State)
      → ((server : OsServer) (s : State) → GivesBack fd p s.trace (serve server s))
      → Started fd p t (rc, server) s
      → Ends (λ _ s'. Balanced fd p t s'.trace) Any (serve_started (until_stop serve) rc server s)
  unfolding serve_started
  serve_started-Clean serve t rc none s back started = absurd started
  serve_started-Clean serve t rc (some server) s back started = elim (Bool-cases (is_zero rc)) [
    | inr bad ↦ rw bad (rw bad at started)
    | inl good ↦ rw good (
        Ends.bind (λ (_, stop) s'. (stop ≡ true) × Balanced fd p s.trace s'.trace) Any
          (λ _ s'. Balanced fd p t s'.trace) (until_stop serve server s) _
          (Ends.bind (λ _ s'. Balanced fd p s.trace s'.trace) Any
            (λ (_, stop) s'. (stop ≡ true) × Balanced fd p s.trace s'.trace) (serve server s) _
            (Ends.mono _ _ _ Any (serve server s) (back server s) (λ _ s' b. b) λ s' _. tt)
            λ rc' s1 b. (refl, b))
          λ (rc', stop) s1 (e, b). rw e (
            Ends.bind_total (λ _ s'. Balanced fd p t s'.trace) Any
              (λ _ s'. Balanced fd p t s'.trace) (tcp_server_stop (some server) s1) _
              (tcp_server_stop-Balanced fd p server t s1
                (listens server s s1 (rw good at started).1 b))
              λ _ s2 b'. b'))
  ]
    where
      listens :
          (server : OsServer) (s s1 : State)
          → Listens fd p t server s
          → Balanced fd p s.trace s1.trace
          → Listens fd p t server s1
      listens server s s1 l b = omega arith

  pub start_and_serve-Clean :
      (serve : OsServer → Cmd ℤ) (s : State)
      → ((server : OsServer) (s : State) → GivesBack fd p s.trace (serve server s))
      → Clean s (start_and_serve (until_stop serve) s)
  unfolding start_and_serve
  start_and_serve-Clean serve s back =
      Ends.bind_total (Started fd p s.trace) Any (λ _ s'. Balanced fd p s.trace s'.trace)
        (tcp_server_start (some stale_server) default_server_port s) _
        (tcp_server_start-Started fd p h stale_server default_server_port s)
        λ (rc, server) s1 started. serve_started-Clean serve s.trace rc server s1 back started
