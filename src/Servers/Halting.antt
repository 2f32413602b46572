-- ===== src/Servers/Halting.antt =====
-- That the servers come to an end on a system that falls silent: the loops of children.c and
-- server-udp.c, and what all the servers do around their loops.
use cloning_apps.Base.{
  ℕ, ℤ, zero, suc, minus_one, ◌+◌, ◌≤◌, ◌<◌, ◌≡◌, ◌∷◌, true, false, Bool, Option, none, some, arith,
  is_zero, is_neg, length, ltb, ltb→lt, not_ltb→le, Bool-cases, inl, inr, if◌then◌else◌,
}
use cloning_apps.System.{
  Env, State, Trace, Cmd, and_then, pure, ◌>>◌, recvfrom, announce, event, SockAddr,
}
use cloning_apps.System.Halts
use cloning_apps.System.Halts.{Halts}
use cloning_apps.System.Ends
use cloning_apps.System.Ends.{Ends, Never}
use cloning_apps.Net.{
  MySocket, OsServer, NetMsg, zero_msg, mysocket_open, tcp_server_start, tcp_server_stop,
  tcp_server_started, tcp_server_accept, tcp_server_recv_msg, net_msg_cleanup, ensure_buffer,
  default_server_port, start_listening,
}
use cloning_apps.Net.Datagram.{udp_server_start, udp_server_recv_msg, stale_socket}
use cloning_apps.Clone.{os_clone, forbid_cloning}
use cloning_apps.Prologue.{server_prologue}
use cloning_apps.Prologue.Halting.{server_prologue-Halts}
use cloning_apps.Servers.{
  Served, at_cleanup, goto_out, handle_children, serve_children, serve_udp, serve_started,
  start_and_serve, with_server, stale_server, is_new_client, thread_func_server_tcp,
  thread_func_children, thread_func_server_udp, serve_tcp, until_stop,
}
use cloning_apps.Servers.Returns.{Returns, serve_tcp-Returns_after}
use cloning_apps.Servers.Returns.Calls.{
  Silent, ensure_buffer-Longer, Longer, recv-Longer, cleanup-Longer, accept-Longer,
}

-- A code of 0 comes with a server that listens.
abbrev pub Listens : ℤ → Option OsServer → Type 0
Listens rc none = Unit
Listens rc (some srv) = is_zero rc ≡ true → tcp_server_started srv ≡ true

module _ ⦃env : Env⦄ where
  -- A server that was started listens.
  pub tcp_server_start-Listens :
      (srv : OsServer) (port : ℕ) (s : State)
      → Ends (λ (rc, started) _. Listens rc started) Never (tcp_server_start (some srv) port s)
  unfolding tcp_server_start mysocket_open start_listening
  tcp_server_start-Listens srv port s = ground arith

  os_clone-Longer :
      (k : ℕ) (s : State) → Ends (λ _ s'. length s.trace ≤ length s'.trace) Never (os_clone k s)
  unfolding os_clone forbid_cloning
  os_clone-Longer k s = ground arith

  pub tcp_server_stop-Returns :
      (srv : OsServer) (s : State) → Ends (λ _ _. Unit {0}) Never (tcp_server_stop (some srv) s)
  unfolding tcp_server_stop
  tcp_server_stop-Returns srv s = ground arith

  -- What the servers do around a loop.
  pub start_and_serve-Halts :
      (serve : OsServer → Cmd (ℤ × Bool)) (s : State)
      → ((srv : OsServer) (s' : State) → tcp_server_started srv ≡ true → Halts (serve srv s'))
      → Halts (start_and_serve serve s)
  unfolding start_and_serve serve_started
  start_and_serve-Halts serve s loop =
      Halts.bind_total _ (tcp_server_start (some stale_server) default_server_port s) _
        (tcp_server_start-Listens stale_server default_server_port s)
        λ (rc, server) s1 listens. started rc server s1 listens
    where
      started :
          (rc : ℤ) (server : Option OsServer) (s1 : State)
          → Listens rc server
          → Halts (serve_started serve rc server s1)
      started rc none s1 listens = tt
      started rc (some srv) s1 listens =
          Halts.branch (is_zero rc) _ _ s1
            (λ good. Halts.bind (serve srv s1) _ (loop srv s1 (listens good)) λ (rc', stop) s2.
              Halts.branch stop _ _ s2
                (λ _.
                  Halts.bind_total _ (tcp_server_stop (some srv) s2) _
                    (tcp_server_stop-Returns srv s2) λ _ _ _. tt)
                λ _. tt)
            λ _. tt

module _ ⦃env : Env⦄ (n : ℕ) (silent : Silent env n) where
  -- One round: `tcp_server_accept`, and what a loop does for a client; on an error the loop ends.
  pub accepted-Halts :
      {B : Type 0} (client : ℤ × NetMsg → Cmd B) (failed : ℤ → B) (server : OsServer) (s : State)
      → ((r : ℤ × NetMsg) (s' : State)
          → length s.trace < n
          → Longer n silent 1 s s'
          → Halts (client r s'))
      → Halts (
          and_then
            (tcp_server_accept server s)
            λ r. if is_zero r.0 then client r else pure (failed r.0))
  accepted-Halts client failed server s one =
      Halts.bind_total _ (tcp_server_accept server s) _ (accept-Longer n silent server s)
        λ r s1 got. elim (Bool-cases (is_zero r.0)) [
          | inr bad ↦ rw bad tt
          | inl good ↦ rw good (one r s1 (rw good at got).0 (rw good at got).1)
        ]

  handle_children-Longer :
      (m : NetMsg) (s : State) → Ends (λ _ s'. Longer n silent 0 s s') Never (handle_children m s)
  unfolding handle_children
  handle_children-Longer m s =
      Ends.bind_total _ Never _ (tcp_server_recv_msg m s) _ (recv-Longer n silent m s)
        λ (rc, m') s1 (le, _).
          Ends.branch _ _ (is_zero rc) _ _ s1 (λ _. le)
            λ _.
              Ends.branch _ _ (is_neg rc) _ _ s1 (λ _. le)
                λ _.
                  Ends.bind_total _ Never _ (os_clone 1 s1) _ (os_clone-Longer 1 s1)
                    λ rc' s2 le'. omega (arith, le, le')

  -- The end of a round, before the other rounds.
  served-Halts :
      (rest : Cmd (ℤ × Bool)) (r : Served) (s : State)
      → ((s' : State) → length s.trace ≤ length s'.trace → Halts (rest s'))
      → Halts (
          (elim r as (λ _. Cmd (ℤ × Bool)) [
            | at_cleanup rc msg ↦ do
              net_msg_cleanup msg
              if is_neg rc then pure (rc, true) else rest
            | goto_out rc ↦ pure (rc, false)
          ])
            s)
  served-Halts rest (at_cleanup rc m) s others =
      Halts.bind_total _ (net_msg_cleanup m s) _ (cleanup-Longer m s)
        λ _ s' le. Halts.branch (is_neg rc) _ _ s' (λ _. tt) λ _. others s' le
  served-Halts rest (goto_out rc) s others = tt

  serve_children-Halts :
      (fuel : ℕ) (server : OsServer) (s : State)
      → tcp_server_started server ≡ true
      → 0 < fuel
      → n < fuel + length s.trace
      → Halts (serve_children fuel server s)
  unfolding serve_children
  serve_children-Halts zero server s started some_fuel enough = absurd (omega arith)
  serve_children-Halts (suc fuel) server s started some_fuel enough = rw started (
      accepted-Halts _ (λ rc. (rc, true)) server s
        λ (rc, m) s1 less longer.
          Halts.bind_total _ (handle_children m s1) _ (handle_children-Longer m s1) λ r s2 le.
            served-Halts (serve_children fuel server) r s2 λ s3 le'.
              serve_children-Halts fuel server s3 started (omega (arith, enough, less))
                (omega (arith, enough, longer, le, le')))

udp_server_start-Halts :
    ⦃env : Env⦄ (sock : MySocket) (port : ℕ) (s : State) → Halts (udp_server_start sock port s)
unfolding udp_server_start
udp_server_start-Halts sock port s = ground arith

-- From `n` calls on no datagram comes.
abbrev pub SilentDatagrams : Env → ℕ → Type 0
SilentDatagrams env n =
    (t : Trace) (d : ℤ) (k : ℕ) → n ≤ length t → is_neg (env.answer t (recvfrom d k)).value ≡ true

module _ ⦃env : Env⦄ (n : ℕ) (silent : SilentDatagrams env n) where
  udp_server_recv_msg-Longer :
      (sock : MySocket) (m : NetMsg) (s : State)
      → Ends
          (λ (rc, _) s'.
            is_neg rc ≡ false → (length s.trace < n) × (length s.trace + 1 ≤ length s'.trace))
          Never
          (udp_server_recv_msg sock m s)
  unfolding udp_server_recv_msg
  udp_server_recv_msg-Longer sock m s =
      Ends.bind_total _ Never _ (ensure_buffer m s) _ (ensure_buffer-Longer m s)
        λ (rc, m') s1 (le, code). elim (Bool-cases (is_zero rc)) [
          | inr bad ↦ rw bad (λ good. absurd (cc (rw bad at code)))
          | inl zero_code ↦
              rw zero_code
                λ good. (before s1.trace sock.s m'.netbuf_size le good, omega (arith, le))
        ]
    where
      before :
          (t : Trace) (d : ℤ) (k : ℕ)
          → length s.trace ≤ length t
          → is_neg (env.answer t (recvfrom d k)).value ≡ false
          → length s.trace < n
      before t d k le h = elim (Bool-cases (ltb (length t) n)) [
        | inl less ↦ omega (arith, ltb→lt (length t) n less)
        | inr more ↦ absurd (cc (silent t d k (not_ltb→le (length t) n more)))
      ]

  serve_udp-Halts :
      (fuel : ℕ) (sock : MySocket) (addr : SockAddr) (port : ℕ) (s : State)
      → 0 < fuel
      → n < fuel + length s.trace
      → Halts (serve_udp fuel sock addr port s)
  unfolding serve_udp
  serve_udp-Halts zero sock addr port s some_fuel enough = absurd (omega arith)
  serve_udp-Halts (suc fuel) sock addr port s some_fuel enough =
      Halts.bind_total _ (udp_server_recv_msg sock (record zero_msg { connection = minus_one }) s) _
        (udp_server_recv_msg-Longer sock (record zero_msg { connection = minus_one }) s)
        λ (rc, m) s1 got.
          Halts.branch (is_neg rc) _ _ s1 (λ _. tt)
            λ good.
              let others =
                λ (a : SockAddr) (p : ℕ) (s2 : State) (le : length s1.trace ≤ length s2.trace).
                  serve_udp-Halts fuel sock a p s2 (omega (arith, enough, (got good).0))
                    (omega (arith, enough, (got good).1, le)) in
              Halts.branch (is_new_client addr port m.client_addr) _ _ s1
                (λ _.
                  let e =
                    event (announce m.client_addr) (env.answer s1.trace (announce m.client_addr)) in
                  let s2 : State = record s1 { trace = e ∷ s1.trace } in
                  Halts.bind_total _ (net_msg_cleanup m s2) _ (cleanup-Longer m s2)
                    λ _ s3 le. others m.client_addr m.client_addr.port s3 (omega (arith, le)))
                λ _.
                  Halts.bind_total _ (net_msg_cleanup m s1) _ (cleanup-Longer m s1)
                    λ _ s2 le. others addr port s2 le

module _ ⦃env : Env⦄ (n : ℕ) (silent : Silent env n) (rounds fuel : ℕ) (enough_rounds : n < rounds)
    (enough : n < fuel) where
  with_server-Halts :
      (serve : OsServer → Cmd (ℤ × Bool)) (s : State)
      → ((srv : OsServer) (s' : State) → tcp_server_started srv ≡ true → Halts (serve srv s'))
      → Halts (with_server rounds serve s)
  unfolding with_server
  with_server-Halts serve s loop =
      Halts.bind (server_prologue rounds s) _
        (server_prologue-Halts n silent rounds enough_rounds s)
        λ (rc, _) s1.
          Halts.branch (is_zero rc) _ _ s1 (λ _. start_and_serve-Halts serve s1 loop) λ _. tt

  until_stop-Halts :
      (serve : OsServer → Cmd ℤ) (srv : OsServer) (s : State)
      → Returns n silent (serve srv s)
      → Halts (until_stop serve srv s)
  until_stop-Halts serve srv s returns = Halts.bind_total _ (serve srv s) _ returns λ _ _ _. tt

  pub thread_func_server_tcp-Halts : (s : State) → Halts (thread_func_server_tcp rounds fuel s)
  unfolding thread_func_server_tcp
  thread_func_server_tcp-Halts s = with_server-Halts _ s λ srv s' _.
      until_stop-Halts (serve_tcp fuel) srv s' (serve_tcp-Returns_after n silent fuel srv s' enough)

  pub thread_func_children-Halts : (s : State) → Halts (thread_func_children rounds fuel s)
  unfolding thread_func_children
  thread_func_children-Halts s = with_server-Halts (serve_children fuel) s λ srv s' started.
      serve_children-Halts n silent fuel srv s' started (omega arith) (omega arith)

  pub thread_func_server_udp-Halts :
      SilentDatagrams env n → (s : State) → Halts (thread_func_server_udp rounds fuel s)
  unfolding thread_func_server_udp
  thread_func_server_udp-Halts no_datagrams s =
      Halts.bind (server_prologue rounds s) _
        (server_prologue-Halts n silent rounds enough_rounds s)
        λ (rc, _) s1.
          Halts.branch (is_zero rc) _ _ s1
            (λ _.
              Halts.bind (udp_server_start stale_socket default_server_port s1) _
                (udp_server_start-Halts stale_socket default_server_port s1)
                λ (rc', listener) s2.
                  Halts.branch (is_zero rc') _ _ s2
                    (λ _.
                      serve_udp-Halts n no_datagrams fuel listener _ 0 s2 (omega arith)
                        (omega arith))
                    λ _. tt)
            λ _. tt
