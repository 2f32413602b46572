-- ===== src/Servers/Returns/Calls.antt =====
-- Calls of common/net.c on a system that falls silent: how many calls they make.
use cloning_apps.Base.{
  ℕ, ℤ, suc, ◌+◌, ◌≤◌, ◌<◌, ◌≡◌, ◌∷◌, true, false, arith, length, is_neg, is_zero, Bool-cases, inl,
  inr, if◌then◌else◌, ltb, ltb→lt, not_ltb→le,
}
use cloning_apps.System.{Env, State, Trace, accept, getpeername, recv, event, Reply}
use cloning_apps.System.Ends
use cloning_apps.System.Ends.{Ends, Never}
use cloning_apps.Net.{
  NetMsg, OsServer, net_msg_cleanup, net_msg_init_buffer, ensure_buffer, tcp_server_accept,
  tcp_server_recv_msg, tcp_server_send_msg,
}

-- From `n` calls on, no connection comes and nothing can be received.
pub record Silent (env : Env) (n : ℕ) : Type 0 where
  pub no_accept : (t : Trace) (l : ℤ) → n ≤ length t → is_neg (env.answer t (accept l)).value ≡ true
  pub no_recv :
      (t : Trace) (d : ℤ) (k : ℕ) → n ≤ length t → is_neg (env.answer t (recv d k)).value ≡ true

-- A code of the allocation is 0 or negative.
pub ensure_buffer-Longer :
    ⦃env : Env⦄ (m : NetMsg) (s : State)
    → Ends
        (λ (rc, m') s'.
          (length s.trace ≤ length s'.trace) × (if is_zero rc then Unit else (is_neg rc ≡ true)))
        Never
        (ensure_buffer m s)
unfolding ensure_buffer net_msg_init_buffer
ensure_buffer-Longer m s = ground arith

pub cleanup-Longer :
    ⦃env : Env⦄ (m : NetMsg) (s : State)
    → Ends (λ _ s'. length s.trace ≤ length s'.trace) Never (net_msg_cleanup m s)
unfolding net_msg_cleanup
cleanup-Longer m s = ground arith

module _ ⦃env : Env⦄ (n : ℕ) (silent : Silent env n) where
  -- At least `k` calls more.
  abbrev pub Longer : ℕ → State → State → Type 0
  Longer k s s' = length s.trace + k ≤ length s'.trace

  -- A number of bytes comes only before the silence.
  pub recv-Longer :
      (m : NetMsg) (s : State)
      → Ends
          (λ (rc, m') s'.
            Longer 0 s s'
            × (is_neg rc ≡ false → is_zero rc ≡ false → (length s.trace < n) × Longer 1 s s'))
          Never
          (tcp_server_recv_msg m s)
  unfolding tcp_server_recv_msg
  recv-Longer m s =
      Ends.bind_total _ Never _ (ensure_buffer m s) _ (ensure_buffer-Longer m s)
        λ (rc, m') s1 (le, code). elim (Bool-cases (is_zero rc)) [
          | inr bad ↦ rw bad (omega (arith, le), λ h z. cc (rw bad at code))
          | inl good ↦ rw good (
            omega arith,
            λ h z. before_silence s1.trace m'.connection m'.netbuf_size (omega (arith, le)) h,
          )
        ]
    where
      before_silence :
          (t : Trace) (d : ℤ) (k : ℕ)
          → length s.trace ≤ length t
          → is_neg (env.answer t (recv d k)).value ≡ false
          → (length s.trace < n) × (length s.trace + 1 ≤ suc (length t))
      before_silence t d k le h = elim (Bool-cases (ltb (length t) n)) [
        | inl less ↦ (omega (arith, ltb→lt (length t) n less), omega (arith, le))
        | inr more ↦ absurd (cc (silent.no_recv t d k (not_ltb→le (length t) n more)))
      ]

  pub send-Longer :
      (m : NetMsg) (s : State) → Ends (λ _ s'. Longer 0 s s') Never (tcp_server_send_msg m s)
  unfolding tcp_server_send_msg
  send-Longer m s = ground arith

  pub accept-Longer :
      (server : OsServer) (s : State)
      → Ends
          (λ (rc, m) s'. if is_zero rc then (length s.trace < n) × Longer 1 s s' else Unit)
          Never
          (tcp_server_accept server s)
  unfolding tcp_server_accept net_msg_cleanup
  accept-Longer server s = elim (Bool-cases (is_neg conn.value)) [
    | inl failed ↦ rw failed tt
    | inr connected ↦ rw connected (elim (Bool-cases (is_zero known.value)) [
      | inl good ↦ rw good (less connected, omega arith)
      | inr bad ↦ rw bad (rw bad tt)
    ])
  ]
    where
      conn : Reply
      conn = env.answer s.trace (accept server.listener_socket.s)

      known : Reply
      known =
          env.answer (event (accept server.listener_socket.s) conn ∷ s.trace)
            (getpeername conn.value)

      less : is_neg conn.value ≡ false → length s.trace < n
      less connected = elim (Bool-cases (ltb (length s.trace) n)) [
        | inl l ↦ ltb→lt (length s.trace) n l
        | inr more ↦ absurd (
            cc (
              silent.no_accept s.trace server.listener_socket.s
                (not_ltb→le (length s.trace) n more)))
      ]
