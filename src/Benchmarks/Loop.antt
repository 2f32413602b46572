-- ===== src/Benchmarks/Loop.antt =====
-- The loop of the two benchmarks, measure-fork.c and memory-overhead.c, over any account of
-- common/net.c.
use cloning_apps.Base.{ℕ, ℤ, zero, suc, is_neg, is_zero, Bool-cases, inl, inr, if◌then◌else◌}
use cloning_apps.System.{Env, State, Run, Cmd, pure, and_then, ◌>>=◌, ◌>>◌}
use cloning_apps.System.Ends
use cloning_apps.System.Ends.{Ends, Never}
use cloning_apps.Net.{NetMsg, OsServer, net_msg_cleanup, tcp_server_accept, tcp_server_recv_msg}
use cloning_apps.Servers.Contract.{Contract}
use cloning_apps.Benchmarks.{
  Handled, goes_on, stops, goto_out, LoopEnd, ended, left_by_goto, after_request, serve_requests,
}

-- `Jumped` is what holds where a request jumps to `out`.
module _ ⦃env : Env⦄ (server : OsServer) (c : Contract env server) (Jumped : State → Type 0) where
  -- The outcome of a request, and that of the loop.
  abbrev pub Leaves : NetMsg → Handled → State → Type 0
  Leaves m (goes_on rc) s' = c.Spent m s'
  Leaves m (stops rc) s' = c.Spent m s'
  Leaves m (goto_out rc) s' = Jumped s'

  abbrev pub EndsBehind : LoopEnd → State → Type 0
  EndsBehind (ended rc) s' = c.Idle s'
  EndsBehind (left_by_goto rc) s' = Jumped s'

  abbrev pub HandlesRequests : (ℤ → NetMsg → Cmd Handled) → Type 0
  HandlesRequests handle =
      (rc : ℤ) (m : NetMsg) (s : State) → c.Got m s → Ends (Leaves m) c.Stopped (handle rc m s)

  abbrev pub RunsToEnd : Run LoopEnd → Type 0
  RunsToEnd = Ends EndsBehind c.Stopped

  after_request-RunsToEnd :
      (rest : Cmd LoopEnd) (m : NetMsg) (h : Handled) (s : State)
      → Leaves m h s
      → ((s : State) → c.Idle s → RunsToEnd (rest s))
      → RunsToEnd (after_request h m rest s)
  unfolding after_request
  after_request-RunsToEnd rest m (goes_on rc) s spent others =
      Ends.bind_total _ _ _ (net_msg_cleanup m s) _ (c.cleans m s spent) λ _ s' idle. others s' idle
  after_request-RunsToEnd rest m (stops rc) s spent others =
      Ends.bind_total _ _ _ (net_msg_cleanup m s) _ (c.cleans m s spent) λ _ s' idle. idle
  after_request-RunsToEnd rest m (goto_out rc) s jumped others = jumped

  received-RunsToEnd :
      (rest : Cmd LoopEnd) (handle : ℤ → NetMsg → Cmd Handled) (m : NetMsg) (s : State)
      → HandlesRequests handle
      → c.Ready m s
      → ((s : State) → c.Idle s → RunsToEnd (rest s))
      → RunsToEnd (
          and_then (tcp_server_recv_msg m s) λ (rc, msg).
            if is_neg rc
            then net_msg_cleanup msg >> pure (ended rc)
            else (do h ← handle rc msg; after_request h msg rest))
  unfolding after_request
  received-RunsToEnd rest handle m s handles ready others =
      Ends.bind_total _ _ _ (tcp_server_recv_msg m s) _ (c.receives m s ready) λ (rc, m') s1 got.
        elim (Bool-cases (is_neg rc)) [
          | inl bad ↦ rw bad (after_request-RunsToEnd rest m' (stops rc) s1 (rw bad at got) others)
          | inr good ↦ rw good (
              Ends.bind _ _ _ (handle rc m' s1) _ (handles rc m' s1 (rw good at got))
                λ h s2 k. after_request-RunsToEnd rest m' h s2 k others)
        ]

  -- The loop keeps every account that the handling of a request keeps.
  pub serve_requests-RunsToEnd :
      (handle : ℤ → NetMsg → Cmd Handled)
      → HandlesRequests handle
      → (fuel : ℕ) (s : State) → c.Idle s
      → RunsToEnd (serve_requests fuel server handle s)
  unfolding serve_requests
  serve_requests-RunsToEnd handle handles zero s idle = c.idle_stopped s idle
  serve_requests-RunsToEnd handle handles (suc fuel) s idle =
      Ends.bind_total _ _ _ (tcp_server_accept server s) _ (c.accepts s idle) λ (rc, m) s1 got.
        elim (Bool-cases (is_zero rc)) [
          | inr bad ↦ rw bad (rw bad at got)
          | inl good ↦ rw good (
              received-RunsToEnd (serve_requests fuel server handle) handle m s1 handles
                (rw good at got) (serve_requests-RunsToEnd handle handles fuel))
        ]
