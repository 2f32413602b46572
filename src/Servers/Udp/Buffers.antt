-- ===== src/Servers/Udp/Buffers.antt =====
-- The buffers of server-udp.c.
use cloning_apps.Base.{◌∷◌, ℕ, ℤ, zero, suc, ◌≡◌, arith, is_neg, minus_one}
use cloning_apps.System.{announce, event, Env, State, Trace, Run, SockAddr}
use cloning_apps.System.Ends
use cloning_apps.System.Ends.{Ends, Never}
use cloning_apps.System.Ledger.{Balanced, AtMostOne, Holds-AtMostOne}
use cloning_apps.Net.{
  NetMsg, MySocket, zero_msg, net_msg_cleanup, ensure_buffer, net_msg_init_buffer,
}
use cloning_apps.Net.Datagram.{udp_server_recv_msg}
use cloning_apps.Net.Messages.{Carries, net_msg_cleanup-Balanced}
use cloning_apps.Servers.{serve_udp, is_new_client}

module _ ⦃env : Env⦄ (fd : ℤ) (p : ℕ) where
  recv-Carries :
      (sock : MySocket) (t : Trace) (s : State)
      → Balanced fd p t s.trace
      → Ends
          (λ (rc, m) s'. Carries fd p t m s' × (m.connection ≡ minus_one))
          Never
          (udp_server_recv_msg sock (record zero_msg { connection = minus_one }) s)
  unfolding udp_server_recv_msg ensure_buffer net_msg_init_buffer
  recv-Carries sock t s b = ground arith

  -- After a message's sender was announced.
  abbrev told : NetMsg → State → State
  told m s =
      let c = announce m.client_addr in
      record s { trace = event c (env.answer s.trace c) ∷ s.trace }

  -- What the loop leaves: the buffer of the datagram that it failed to receive, or nothing.
  abbrev pub LeavesBuffer : Trace → Run ℤ → Type 0
  LeavesBuffer t = Ends (λ rc s'. AtMostOne fd p t s'.trace) (λ s'. Balanced fd p t s'.trace)

  -- Given a trace up to which everything was given back, the loop of server-udp.c opens and closes
  -- nothing more and has freed each buffer exactly once when it is stopped after any number of
  -- rounds; when it returns, at most one address is still allocated, and only once.
  pub serve_udp-LeavesBuffer :
      (fuel : ℕ) (sock : MySocket) (a : SockAddr) (port : ℕ) (t : Trace) (s : State)
      → Balanced fd p t s.trace
      → LeavesBuffer t (serve_udp fuel sock a port s)
  unfolding serve_udp
  serve_udp-LeavesBuffer zero sock a port t s b = b
  serve_udp-LeavesBuffer (suc fuel) sock a port t s b =
      Ends.bind_total _ _ _
        (udp_server_recv_msg sock (record zero_msg { connection = minus_one }) s) _
        (recv-Carries sock t s b)
        λ (rc, m) s1 (c, e).
          Ends.branch _ _ (is_neg rc) _ _ s1
            (λ _. Holds-AtMostOne fd p m.connection m.netbuf t s1.trace c)
            λ _.
              Ends.branch _ _ (is_new_client a port m.client_addr) _ _ s1
                (λ _.
                  Ends.bind_total _ _ _ (net_msg_cleanup m (told m s1)) _
                    (net_msg_cleanup-Balanced fd p m t (told m s1) (omega arith))
                    λ m' s2 (b', _).
                      serve_udp-LeavesBuffer fuel sock m.client_addr m.client_addr.port t s2 b')
                (λ _.
                  Ends.bind_total _ _ _ (net_msg_cleanup m s1) _
                    (net_msg_cleanup-Balanced fd p m t s1 c)
                    λ m' s2 (b', _). serve_udp-LeavesBuffer fuel sock a port t s2 b')
