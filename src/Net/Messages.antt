-- ===== src/Net/Messages.antt =====
-- Buffers and connections: `net_msg_cleanup`, `tcp_server_recv_msg` and `tcp_server_send_msg`.
use cloning_apps.Base.{ℕ, ℤ, ◌≡◌, true, arith, ◌==◌, is_neg, inl, inr, Bool-cases, ==→eq, refl}
use cloning_apps.System.{Env, State, Trace}
use cloning_apps.System.Ends
use cloning_apps.System.Ends.{Ends, Never}
use cloning_apps.System.Ledger.{Holds, Balanced}
use cloning_apps.Net.{
  NetMsg, net_msg_cleanup, net_msg_init_buffer, ensure_buffer, tcp_server_recv_msg,
  tcp_server_send_msg,
}

module _ ⦃env : Env⦄ (fd : ℤ) (p : ℕ) where
  -- A message's connection and buffer, when they are all that was acquired since `t`.
  abbrev pub Carries : Trace → NetMsg → State → Type 0
  Carries t m s' = Holds fd p m.connection m.netbuf t s'.trace

  -- `net_msg_cleanup` gives back the buffer and the connection of a message, each once.
  pub net_msg_cleanup-Balanced :
      (m : NetMsg) (t : Trace) (s : State)
      → Carries t m s
      → Ends
          (λ m' s'. Balanced fd p t s'.trace × (is_neg m'.connection ≡ true))
          Never
          (net_msg_cleanup m s)
  unfolding net_msg_cleanup
  net_msg_cleanup-Balanced m t s held = ground arith

  net_msg_init_buffer-Carries :
      (m : NetMsg) (t : Trace) (s : State)
      → Carries t m s
      → m.netbuf ≡ 0
      → Ends
          (λ (rc, m') s'. Carries t m' s' × (m'.connection ≡ m.connection))
          Never
          (net_msg_init_buffer m s)
  unfolding net_msg_init_buffer
  net_msg_init_buffer-Carries m t s held e = ground arith

  ensure_buffer-Carries :
      (m : NetMsg) (t : Trace) (s : State)
      → Carries t m s
      → Ends
          (λ (rc, m') s'. Carries t m' s' × (m'.connection ≡ m.connection))
          Never
          (ensure_buffer m s)
  unfolding ensure_buffer
  ensure_buffer-Carries m t s held = elim (Bool-cases (m.netbuf == 0)) [
    | inl empty ↦ rw empty (net_msg_init_buffer-Carries m t s held (==→eq _ _ empty))
    | inr full ↦ rw full (held, refl)
  ]

  -- `tcp_server_recv_msg` keeps the connection, and acquires at most the buffer of the message.
  pub tcp_server_recv_msg-Carries :
      (m : NetMsg) (t : Trace) (s : State)
      → Carries t m s
      → Ends
          (λ (rc, m') s'. Carries t m' s' × (m'.connection ≡ m.connection))
          Never
          (tcp_server_recv_msg m s)
  unfolding tcp_server_recv_msg
  tcp_server_recv_msg-Carries m t s held =
      Ends.bind (λ (rc, m') s'. Carries t m' s' × (m'.connection ≡ m.connection)) Never
        (λ (rc, m') s'. Carries t m' s' × (m'.connection ≡ m.connection)) (ensure_buffer m s) _
        (ensure_buffer-Carries m t s held) λ (rc, m') s' (c, e). ground arith

  -- `tcp_server_send_msg` acquires and gives back nothing.
  pub tcp_server_send_msg-Carries :
      (m : NetMsg) (t : Trace) (s : State)
      → Carries t m s
      → Ends (λ rc s'. Carries t m s') Never (tcp_server_send_msg m s)
  unfolding tcp_server_send_msg
  tcp_server_send_msg-Carries m t s held = ground arith
