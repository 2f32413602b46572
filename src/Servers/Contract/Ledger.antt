-- ===== src/Servers/Contract/Ledger.antt =====
-- The books of connections and buffers as an account of common/net.c.
use cloning_apps.Base.{ℕ, ℤ, inl, inr, arith, is_neg, is_zero, Bool-cases}
use cloning_apps.System.{Env, Trace}
use cloning_apps.System.Ends
use cloning_apps.System.Ledger.{Balanced, AtMostOne, Balanced-Holds, Holds-AtMostOne}
use cloning_apps.Net.{OsServer, net_msg_cleanup, tcp_server_accept, tcp_server_recv_msg}
use cloning_apps.Net.Messages.{Carries, net_msg_cleanup-Balanced, tcp_server_recv_msg-Carries}
use cloning_apps.Net.Tcp.{tcp_server_accept-Carries}
use cloning_apps.Servers.Contract.{Contract}

module _ ⦃env : Env⦄ (fd : ℤ) (p : ℕ) where
  -- Since the trace `t` everything was given back between two clients, and a message has just its
  -- connection and its buffer.
  abbrev pub books : (server : OsServer) → Trace → Contract env server
  books server t = record {
    Idle = λ s. Balanced fd p t s.trace;
    Ready = λ m s. Carries fd p t m s;
    Got = λ m s. Carries fd p t m s;
    Spent = λ m s. Carries fd p t m s;
    Stopped = λ s. AtMostOne fd p t s.trace;
    accepts = λ s idle.
        Ends.mono _ _ _ _ (tcp_server_accept server s) (tcp_server_accept-Carries fd p server s)
          (λ (rc, m) s' (e, got). elim (Bool-cases (is_zero rc)) [
            | inl good ↦ rw good (
                Balanced-Holds fd p m.connection m.netbuf t s.trace s'.trace idle
                  (rw good at got).1)
            | inr bad ↦ rw bad (omega (arith, idle, rw bad at got))
          ])
          λ _ no_way. no_way;
    receives = λ m s held.
        Ends.mono _ _ _ _ (tcp_server_recv_msg m s) (tcp_server_recv_msg-Carries fd p m t s held)
          (λ (rc, m') s' (c, e). elim (Bool-cases (is_neg rc)) [
            | inl bad ↦ rw bad c
            | inr good ↦ rw good c
          ])
          λ _ no_way. no_way;
    cleans = λ m s held.
        Ends.mono _ _ _ _ (net_msg_cleanup m s) (net_msg_cleanup-Balanced fd p m t s held)
          (λ _ s' (b, _). b) λ _ no_way. no_way;
    got_again = λ m s held. held;
    got_spent = λ m s held. held;
    idle_stopped = λ s idle. omega arith;
    ready_stopped = λ m s held. Holds-AtMostOne fd p m.connection m.netbuf t s.trace held;
  }
