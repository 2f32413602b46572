-- ===== src/Servers/Returns.antt =====
-- That the loop of server-tcp.c returns once `accept` and `recv` fail.
pub mod Calls
use cloning_apps.Base.{
  ℕ, ℤ, zero, suc, ◌+◌, ◌≤◌, ◌<◌, ◌≡◌, ◌∷◌, true, false, arith, length, is_neg, is_neg-is_zero,
  is_zero, Bool-cases, inl, inr, if◌then◌else◌, ltb, ltb→lt, not_ltb→le,
}
use cloning_apps.System.{
  Env, State, Trace, Run, Cmd, accept, getpeername, recv, pure, and_then, ◌>>=◌, ◌>>◌, event, Reply,
}
use cloning_apps.System.Ends
use cloning_apps.System.Ends.{Ends, Never}
use cloning_apps.Net.{
  NetMsg, OsServer, net_msg_cleanup, net_msg_init_buffer, ensure_buffer, tcp_server_accept,
  tcp_server_recv_msg, tcp_server_send_msg,
}
use cloning_apps.Servers.{drain, serve_tcp, handle_counter, serve_counter, count_up}
use Calls.{Longer, recv-Longer, cleanup-Longer, send-Longer, accept-Longer, Silent}

module _ ⦃env : Env⦄ (n : ℕ) (silent : Silent env n) where
  -- A handler that is given enough rounds returns, and has made calls.
  abbrev pub ReturnsLonger : State → Run (ℤ × NetMsg) → Type 0
  ReturnsLonger s = Ends (λ _ s'. Longer n silent 0 s s') Never

  drain-ReturnsLonger :
      (fuel : ℕ) (m : NetMsg) (s : State)
      → 0 < fuel
      → n < fuel + length s.trace
      → ReturnsLonger s (drain fuel m s)
  unfolding drain
  drain-ReturnsLonger zero m s some_fuel enough = absurd (omega (arith, some_fuel))
  drain-ReturnsLonger (suc fuel) m s some_fuel enough =
      Ends.bind_total _ Never _ (tcp_server_recv_msg m s) _ (recv-Longer n silent m s)
        λ (rc, m') s1 (le, some_bytes).
          Ends.branch _ _ (is_zero rc) _ _ s1 (λ _. le)
            λ z.
              Ends.branch _ _ (is_neg rc) _ _ s1 (λ _. le)
                λ h.
                  Ends.mono (λ _ s'. Longer n silent 0 s1 s') Never _ Never (drain fuel m' s1)
                    (drain-ReturnsLonger fuel m' s1 (omega (arith, enough, (some_bytes h z).0))
                      (omega (arith, enough, (some_bytes h z).1)))
                    (λ _ s' le'. omega (arith, le, le')) λ s' never. never

  -- The outcome of a loop: a code other than 0.
  abbrev pub Returns : Run ℤ → Type 0
  Returns = Ends (λ rc _. is_zero rc ≡ false) Never

  -- `tcp_server_accept`, and what a loop does for a client; on an error the loop ends.
  pub accepted-Returns :
      {B : Type 0} (P : B → State → Type 0) (client : ℤ × NetMsg → Cmd B) (failed : ℤ → B)
      (server : OsServer) (s : State)
      → ((r : ℤ × NetMsg) (s' : State) → is_zero r.0 ≡ false → P (failed r.0) s')
      → ((r : ℤ × NetMsg) (s' : State)
          → length s.trace < n
          → Longer n silent 1 s s'
          → Ends P Never (client r s'))
      → Ends P Never (
          and_then
            (tcp_server_accept server s)
            λ r. if is_zero r.0 then client r else pure (failed r.0))
  accepted-Returns P client failed server s ends one =
      Ends.bind_total _ Never _ (tcp_server_accept server s) _ (accept-Longer n silent server s)
        λ r s1 got. elim (Bool-cases (is_zero r.0)) [
          | inr bad ↦ rw bad (ends r s1 bad)
          | inl good ↦ rw good (one r s1 (rw good at got).0 (rw good at got).1)
        ]

  -- One round, before the others.
  round-Returns :
      (server : OsServer) (handle : NetMsg → Cmd (ℤ × NetMsg)) (rest : Cmd ℤ) (s : State)
      → ((m : NetMsg) (s' : State)
          → length s.trace < n
          → Longer n silent 1 s s'
          → ReturnsLonger s' (handle m s'))
      → ((s' : State) → length s.trace < n → Longer n silent 1 s s' → Returns (rest s'))
      → Returns (
          and_then (tcp_server_accept server s) λ (rc, msg).
            if is_zero rc
            then (do
              (rc, msg) ← handle msg
              net_msg_cleanup msg
              if is_neg rc then pure rc else rest)
            else pure rc)
  round-Returns server handle rest s one others =
      accepted-Returns (λ rc _. is_zero rc ≡ false) _ (λ rc. rc) server s (λ r s1 bad. bad)
        λ (rc, m) s1 less longer. served less m s1 longer
    where
      served :
          length s.trace < n
          → (m : NetMsg) (s1 : State) → Longer n silent 1 s s1
          → Returns (
              (do (rc, msg) ← handle m; net_msg_cleanup msg; if is_neg rc then pure rc else rest)
                s1)
      served less m s1 longer =
          Ends.bind (λ _ s'. Longer n silent 0 s1 s') Never _ (handle m s1) _ (one m s1 less longer)
            λ (rc, m') s2 le.
              Ends.bind_total (λ _ s'. length s2.trace ≤ length s'.trace) Never _
                (net_msg_cleanup m' s2) _ (cleanup-Longer m' s2)
                λ _ s3 le'.
                  Ends.branch _ _ (is_neg rc) _ _ s3 (is_neg-is_zero rc)
                    λ _. others s3 less (omega (arith, longer, le, le'))

  serve_tcp-Returns :
      (fuel : ℕ) (server : OsServer) (s : State)
      → 0 < fuel
      → n < fuel + length s.trace
      → Returns (serve_tcp fuel server s)
  unfolding serve_tcp
  serve_tcp-Returns zero server s some_fuel enough = absurd (omega (arith, some_fuel))
  serve_tcp-Returns (suc fuel) server s some_fuel enough =
      round-Returns server (drain fuel) (serve_tcp fuel server) s
        (λ m s' less longer.
          drain-ReturnsLonger fuel m s' (omega (arith, enough, less))
            (omega (arith, enough, longer)))
        λ s' less longer.
          serve_tcp-Returns fuel server s' (omega (arith, enough, less))
            (omega (arith, enough, longer))

  -- If from `n` calls on no connection comes and nothing can be received, then `n + 1` rounds are
  -- enough for the loop of server-tcp.c: it returns, and with a code other than 0.
  pub serve_tcp-Returns_after :
      (fuel : ℕ) (server : OsServer) (s : State) → n < fuel → Returns (serve_tcp fuel server s)
  serve_tcp-Returns_after fuel server s enough =
      serve_tcp-Returns fuel server s (omega arith) (omega arith)
