-- ===== src/Servers/Contract/Protocol.antt =====
-- The protocol of Servers/Session as an account of common/net.c.
use cloning_apps.Base.{◌≡◌, inl, inr, is_neg, is_zero, Bool-cases}
use cloning_apps.System.{Env, Trace}
use cloning_apps.System.Ends
use cloning_apps.Net.{OsServer, tcp_server_accept, tcp_server_recv_msg}
use cloning_apps.Servers.Session.{listening, Follows, Allowed}
use cloning_apps.Servers.Session.Messages.{
  Ready, Buffered, Done, Somewhere, Received-Done, Received-Got, Ready-Somewhere, recv-Received,
  net_msg_cleanup-listening, accept-Accepted,
}
use cloning_apps.Servers.Contract.{Contract}

module _ ⦃env : Env⦄ where
  -- Since the trace `t` the calls kept to the protocol.
  abbrev pub protocol : (server : OsServer) → Allowed → Trace → Contract env server
  protocol server may t = record {
    Idle = λ s. Follows server.listener_socket.s may t s.trace listening;
    Ready = λ m s. Ready server may t m s;
    Got = λ m s. Buffered server may t m s × (m.netbuf_size ≡ 4096);
    Spent = λ m s. Done server may t m s;
    Stopped = λ s. Somewhere server may t s;
    accepts = λ s f.
        Ends.mono _ _ _ _ (tcp_server_accept server s) (accept-Accepted server may t s f)
          (λ (rc, m) s' got. elim (Bool-cases (is_zero rc)) [
            | inl good ↦ rw good (inl (rw good at got))
            | inr bad ↦ rw bad (rw bad at got)
          ])
          λ _ no_way. no_way;
    receives = λ m s ready.
        Ends.mono _ _ _ _ (tcp_server_recv_msg m s) (recv-Received server may m t s ready)
          (λ (rc, m') s' got. elim (Bool-cases (is_neg rc)) [
            | inl bad ↦ rw bad (Received-Done server may t rc m' s' got)
            | inr good ↦ rw good (Received-Got server may t rc m' s' good got)
          ])
          λ _ no_way. no_way;
    cleans = λ m s d. net_msg_cleanup-listening server may m t s d;
    got_again = λ m s got. inr got;
    got_spent = λ m s (b, e). inr b;
    idle_stopped = λ s f. (_, f);
    ready_stopped = λ m s ready. Ready-Somewhere server may t m s ready;
  }
