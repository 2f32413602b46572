-- ===== src/Net/Udp.antt =====
-- The UDP client calls of common/net.c, and what `mysocket_init` does when it goes on after an
-- error.
use cloning_apps.Base.{
  ℕ, ℤ, ◌+◌, ◌≡◌, ◌≢◌, true, false, Option, none, some, List, arith, is_zero, is_neg, ◌∷◌,
}
use cloning_apps.System.{
  Env, State, SockType, Trace, dgram, posix, socket, close, reuse_addr, bind, event, SockAddr,
}
use cloning_apps.System.Ends
use cloning_apps.System.Ends.{Ends, Never}
use cloning_apps.System.Ledger.{Balanced, closes}
use cloning_apps.Net.{MySocket, mysocket_open, set_reuse_addr, bind_port, servaddr_init, inaddr_any}
use cloning_apps.Net.Datagram.{stale_socket, udp_client_send, udp_client_recv, recv_within}
use cloning_apps.Net.Sockets.{SocketCalls, Opened, mysocket_open-Opened}

module _ ⦃env : Env⦄ (fd : ℤ) (p : ℕ) where
  -- Nothing was acquired that was not given back.
  abbrev pub Even : {A : Type 0} → State → A → State → Type 0
  Even s _ s' = Balanced fd p s.trace s'.trace

  recv_within-Even :
      (sock : MySocket) (size : ℕ) (timeout_ms : ℤ) (s : State)
      → Ends (Even s) Never (recv_within sock size timeout_ms s)
  unfolding recv_within
  recv_within-Even sock size timeout_ms s = ground arith

  -- If `setsockopt` succeeds and `bind` never returns a positive number, `udp_client_send` gives
  -- back the socket that it opens for a caller without one, also when opening or sending fails.
  pub udp_client_send-Even :
      (h : SocketCalls env) (sock : Option MySocket) (ip port : ℕ) (bytes : List ℕ) (s : State)
      → Ends (Even s) Never (udp_client_send sock ip port bytes s)
  unfolding udp_client_send
  udp_client_send-Even h (some sock) ip port bytes s = ground arith
  udp_client_send-Even h none ip port bytes s =
      Ends.bind (Opened fd p s.trace) Never (Even s) (mysocket_open stale_socket dgram 0 s) _
        (mysocket_open-Opened fd p h stale_socket dgram 0 s) λ (rc, sock) s1 held. ground arith

  -- If `setsockopt` succeeds and `bind` never returns a positive number, `udp_client_recv` gives
  -- back the socket that it opens for a caller without one, also when opening, the time limit or
  -- receiving fails.
  pub udp_client_recv-Even :
      (h : SocketCalls env) (sock : Option MySocket) (port size : ℕ) (timeout_ms : ℤ) (s : State)
      → Ends (Even s) Never (udp_client_recv sock port size timeout_ms s)
  unfolding udp_client_recv
  udp_client_recv-Even h (some sock) port size timeout_ms s =
      recv_within-Even sock size timeout_ms s
  udp_client_recv-Even h none port size timeout_ms s =
      Ends.bind (Opened fd p s.trace) Never (Even s) (mysocket_open stale_socket dgram port s) _
        (mysocket_open-Opened fd p h stale_socket dgram port s)
        λ (rc, sock) s1 held.
          Ends.branch (Even s) Never (is_zero rc) _ _ s1
            (λ good.
              Ends.bind (Even s1) Never (Even s) (recv_within sock size timeout_ms s1) _
                (recv_within-Even sock size timeout_ms s1) λ got s2 even. ground arith)
            λ bad. ground arith

module _ ⦃env : Env⦄ where
  -- Where both `setsockopt` and `bind` fail on a new socket, `mysocket_init` closes it twice.
  pub mysocket_open-closes_twice :
      (sock : MySocket) (type : SockType) (port : ℕ) (s : State)
      → let fd = (env.answer s.trace (socket type)).value in
        env.platform ≡ posix
        → port ≢ 0
        → is_neg fd ≡ false
        → ((t : Trace) → is_neg (env.answer t (reuse_addr fd)).value ≡ true)
        → ((t : Trace) (a : SockAddr) → is_neg (env.answer t (bind fd a)).value ≡ true)
        → Ends
            (λ (rc, _) s'. (is_neg rc ≡ true) × (closes fd s'.trace ≡ closes fd s.trace + 2))
            Never
            (mysocket_open sock type port s)
  unfolding mysocket_open set_reuse_addr bind_port
  mysocket_open-closes_twice sock type port s e nonzero valid no_reuse no_bind =
      ground (arith, no_reuse t1, no_bind t3 (servaddr_init inaddr_any port))
    where
      fd : ℤ
      fd = (env.answer s.trace (socket type)).value

      t1 : Trace
      t1 = event (socket type) (env.answer s.trace (socket type)) ∷ s.trace

      t2 : Trace
      t2 = event (reuse_addr fd) (env.answer t1 (reuse_addr fd)) ∷ t1

      t3 : Trace
      t3 = event (close fd) (env.answer t2 (close fd)) ∷ t2
