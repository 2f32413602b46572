-- ===== src/Net/Tcp.antt =====
-- The TCP server's listener and its connections: `tcp_server_start`, `tcp_server_stop` and
-- `tcp_server_accept` of common/net.c.
use cloning_apps.Base.{ℕ, ℤ, ◌≡◌, false, none, some, Option, arith, if◌then◌else◌, is_neg, is_zero}
use cloning_apps.System.{Env, State, Trace, stream}
use cloning_apps.System.Ends
use cloning_apps.System.Ends.{Ends, Never}
use cloning_apps.System.Ledger.{Holds, Balanced}
use cloning_apps.Net.{
  OsServer, mysocket_open, start_listening, tcp_server_start, tcp_server_stop, tcp_server_accept,
}
use cloning_apps.Net.Sockets.{SocketCalls, Opened, mysocket_open-Opened}
use cloning_apps.Net.Messages.{Carries}

-- The server owns its listener and nothing else since `t`.
abbrev pub Listens : ℤ → ℕ → Trace → OsServer → State → Type 0
Listens fd p t srv s' = Holds fd p srv.listener_socket.s 0 t s'.trace

-- What `tcp_server_start` leaves: a listener if the code is 0, and nothing if it is not.
abbrev pub Started : ℤ → ℕ → Trace → ℤ × Option OsServer → State → Type 0
Started fd p t (rc, none) s' = ⊥
Started fd p t (rc, some srv) s' =
    if is_zero rc
    then (is_neg srv.listener_socket.s ≡ false) × Listens fd p t srv s'
    else Balanced fd p t s'.trace

module _ ⦃env : Env⦄ (fd : ℤ) (p : ℕ) where
  start_listening-Started :
      (srv : OsServer) (t : Trace) (s : State)
      → is_neg srv.listener_socket.s ≡ false
      → Listens fd p t srv s
      → Ends (λ (rc, srv') s'. Started fd p t (rc, some srv') s') Never (start_listening srv s)
  unfolding start_listening
  start_listening-Started srv t s valid held = ground arith

  -- If `setsockopt` succeeds and `bind` never returns a positive number, `tcp_server_start` either
  -- returns 0 with an open listener, or has closed what it opened.
  pub tcp_server_start-Started :
      SocketCalls env
      → (srv : OsServer) (port : ℕ) (s : State)
      → Ends (Started fd p s.trace) Never (tcp_server_start (some srv) port s)
  unfolding tcp_server_start
  tcp_server_start-Started h srv port s =
      Ends.bind (Opened fd p s.trace) Never (Started fd p s.trace)
        (mysocket_open srv.listener_socket stream port s) _
        (mysocket_open-Opened fd p h srv.listener_socket stream port s)
        λ (rc, sock) s' opened. ground arith

  -- `tcp_server_stop` closes the listener, once.
  pub tcp_server_stop-Balanced :
      (srv : OsServer) (t : Trace) (s : State)
      → Listens fd p t srv s
      → Ends (λ _ s'. Balanced fd p t s'.trace) Never (tcp_server_stop (some srv) s)
  unfolding tcp_server_stop
  tcp_server_stop-Balanced srv t s held = ground arith

  -- `tcp_server_accept` either returns 0 with an open connection and no buffer, or has closed what
  -- it opened.
  pub tcp_server_accept-Carries :
      (srv : OsServer) (s : State)
      → Ends
          (λ (rc, m) s'.
            (m.netbuf ≡ 0)
            × (if is_zero rc
                then (is_neg m.connection ≡ false) × Carries fd p s.trace m s'
                else Balanced fd p s.trace s'.trace))
          Never
          (tcp_server_accept srv s)
  unfolding tcp_server_accept
  tcp_server_accept-Carries srv s = ground arith
