-- ===== src/Servers/Contract.antt =====
-- What a TCP server relies on in common/net.c, as an interface: an account of the states between
-- the calls that `tcp_server_accept`, `tcp_server_recv_msg` and `net_msg_cleanup` keep. The loops are
-- followed once for every such account.
pub mod Ledger
pub mod Protocol
use cloning_apps.Base.{
  ℕ, ℤ, zero, suc, ◌≡◌, true, false, is_neg, is_neg-is_zero, is_zero, Bool-cases, inl, inr,
  if◌then◌else◌,
}
use cloning_apps.System.{Env, State, Run, Cmd, and_then, pure, ◌>>=◌, ◌>>◌}
use cloning_apps.System.Ends
use cloning_apps.System.Ends.{Ends, Never}
use cloning_apps.Net.{
  NetMsg, OsServer, net_msg_cleanup, tcp_server_accept, tcp_server_recv_msg, tcp_server_send_msg,
}
use cloning_apps.Servers.{drain, serve_tcp, handle_counter, count_up, serve_counter}

-- `Idle` holds between two clients, `Ready` of a message that may receive, `Got` of one that has
-- received, `Spent` of one that is to be cleaned up, and `Stopped` wherever a run is stopped.
pub record Contract (env : Env) (server : OsServer) : Type 1 where
  pub Idle : State → Type 0
  pub Ready : NetMsg → State → Type 0
  pub Got : NetMsg → State → Type 0
  pub Spent : NetMsg → State → Type 0
  pub Stopped : State → Type 0
  pub accepts :
      (s : State)
      → Idle s
      → Ends
          (λ (rc, m) s'. if is_zero rc then Ready m s' else Idle s')
          Never
          (tcp_server_accept ⦃env = env⦄ server s)
  pub receives :
      (m : NetMsg) (s : State)
      → Ready m s
      → Ends
          (λ (rc, m') s'. if is_neg rc then Spent m' s' else Got m' s')
          Never
          (tcp_server_recv_msg ⦃env = env⦄ m s)
  pub cleans :
      (m : NetMsg) (s : State)
      → Spent m s
      → Ends (λ _ s'. Idle s') Never (net_msg_cleanup ⦃env = env⦄ m s)
  pub got_again : (m : NetMsg) (s : State) → Got m s → Ready m s
  pub got_spent : (m : NetMsg) (s : State) → Got m s → Spent m s
  pub idle_stopped : (s : State) → Idle s → Stopped s
  pub ready_stopped : (m : NetMsg) (s : State) → Ready m s → Stopped s

-- An account that asks less of the states in which a run is stopped.
abbrev pub relax :
    (env : Env) (server : OsServer) (c : Contract env server) (stopped : State → Type 0)
    → ((s : State) → c.Stopped s → stopped s)
    → Contract env server
relax env server c stopped h = record c {
  Stopped = stopped;
  idle_stopped = λ s idle. h s (c.idle_stopped s idle);
  ready_stopped = λ m s ready. h s (c.ready_stopped m s ready);
}

module _ ⦃env : Env⦄ (server : OsServer) (c : Contract env server) where
  -- A handler of one connection.
  abbrev pub Handles : (NetMsg → Cmd (ℤ × NetMsg)) → Type 0
  Handles handle =
      (m : NetMsg) (s : State)
      → c.Ready m s
      → Ends (λ (rc, m') s'. c.Spent m' s') c.Stopped (handle m s)

  -- The outcome of a loop.
  abbrev pub Serves : Run ℤ → Type 0
  Serves = Ends (λ _ s'. c.Idle s') c.Stopped

  -- `tcp_server_recv_msg`, and what follows in the three cases of its code.
  pub receives-then :
      {B : Type 0} (R : B → State → Type 0) (zero_case neg_case pos_case : ℤ × NetMsg → Cmd B)
      (m : NetMsg) (s : State)
      → c.Ready m s
      → ((r : ℤ × NetMsg) (s' : State) → c.Got r.1 s' → Ends R c.Stopped (zero_case r s'))
      → ((r : ℤ × NetMsg) (s' : State) → c.Spent r.1 s' → Ends R c.Stopped (neg_case r s'))
      → ((r : ℤ × NetMsg) (s' : State) → c.Got r.1 s' → Ends R c.Stopped (pos_case r s'))
      → Ends R c.Stopped (
          and_then
            (tcp_server_recv_msg m s)
            λ r. if is_zero r.0 then zero_case r else if is_neg r.0 then neg_case r else pos_case r)
  receives-then R zero_case neg_case pos_case m s ready z n p =
      Ends.bind_total _ _ R (tcp_server_recv_msg m s) _ (c.receives m s ready) λ r s' got.
        elim (Bool-cases (is_neg r.0)) [
          | inl bad ↦ rw (is_neg-is_zero r.0 bad, bad) (n r s' (rw bad at got))
          | inr good ↦
              Ends.branch R c.Stopped (is_zero r.0) _ _ s' (λ _. z r s' (rw good at got))
                λ _. rw good (p r s' (rw good at got))
        ]

  drain-Handles : (fuel : ℕ) → Handles (drain fuel)
  unfolding drain
  drain-Handles zero m s ready = c.ready_stopped m s ready
  drain-Handles (suc fuel) m s ready =
      receives-then _ _ _ _ m s ready (λ r s' got. c.got_spent r.1 s' got) (λ r s' spent. spent)
        λ r s' got. drain-Handles fuel r.1 s' (c.got_again r.1 s' got)

  -- One connection, before the other rounds.
  served-Serves :
      (handle : NetMsg → Cmd (ℤ × NetMsg)) (rest : Cmd ℤ) (m : NetMsg) (s : State)
      → Handles handle
      → ((s : State) → c.Idle s → Serves (rest s))
      → c.Ready m s
      → Serves
          ((do (rc, msg) ← handle m; net_msg_cleanup msg; if is_neg rc then pure rc else rest) s)
  served-Serves handle rest m s one others ready =
      Ends.bind _ _ _ (handle m s) _ (one m s ready) λ (rc, m') s1 spent.
        Ends.bind_total _ _ _ (net_msg_cleanup m' s1) _ (c.cleans m' s1 spent)
          λ _ s2 idle. Ends.branch _ _ (is_neg rc) _ _ s2 (λ _. idle) λ _. others s2 idle

  -- `tcp_server_accept`, and what a loop does for a client; on an error the loop ends.
  pub accepts-then :
      (client : ℤ × NetMsg → Cmd ℤ) (s : State)
      → c.Idle s
      → ((r : ℤ × NetMsg) (s' : State) → c.Ready r.1 s' → Serves (client r s'))
      → Serves
          (and_then (tcp_server_accept server s) λ r. if is_zero r.0 then client r else pure r.0)
  accepts-then client s idle one =
      Ends.bind_total _ _ _ (tcp_server_accept server s) _ (c.accepts s idle) λ r s1 got.
        elim (Bool-cases (is_zero r.0)) [
          | inr bad ↦ rw bad (rw bad at got)
          | inl good ↦ rw good (one r s1 (rw good at got))
        ]

  -- The loop of server-tcp.c keeps every such account.
  pub serve_tcp-Serves : (fuel : ℕ) (s : State) → c.Idle s → Serves (serve_tcp fuel server s)
  unfolding serve_tcp
  serve_tcp-Serves zero s idle = c.idle_stopped s idle
  serve_tcp-Serves (suc fuel) s idle = accepts-then _ s idle λ (rc, m) s1 ready.
      served-Serves (drain fuel) (serve_tcp fuel server) m s1 (drain-Handles fuel)
        (serve_tcp-Serves fuel) ready
