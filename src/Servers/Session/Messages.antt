-- ===== src/Servers/Session/Messages.antt =====
-- Messages in the phases of a connection: what each function of common/net.c that a server calls
-- does to the phase.
use cloning_apps.Servers.{count_up}
use cloning_apps.Base.{
  ℤ, ◌≡◌, true, false, arith, is_neg, is_zero, Bool-cases, inl, inr, if◌then◌else◌, ◌==◌, ◌⊎◌, refl,
  ==→eq, pos_part, le_bytes, ◌∷◌,
}
use cloning_apps.System.{
  accept, getpeername, event, recv, call, malloc, Reply, Env, State, Trace, pure, ◌>>=◌,
}
use cloning_apps.System.Ends
use cloning_apps.System.Ends.{Ends, Never}
use cloning_apps.Net.{
  NetMsg, OsServer, net_msg_cleanup, net_msg_init_buffer, ensure_buffer, tcp_server_accept,
  tcp_server_recv_msg, tcp_server_send_msg, overwrite,
}
use cloning_apps.Servers.Session.{
  Allowed, Phase, listening, named, closing, buffered, Follows, next, refuse, connect, name,
  unnamed, buffer, no_buffer, receive, count, release, hang_up,
}

module _ ⦃env : Env⦄ (server : OsServer) (may : Allowed) where
  -- A message whose peer is known and that has no buffer.
  abbrev pub Unbuffered : Trace → NetMsg → State → Type 0
  Unbuffered t m s' =
      (is_neg m.connection ≡ false)
      × ((m.netbuf == 0) ≡ true)
      × Follows server.listener_socket.s may t s'.trace (named m.connection)

  -- A message that did not get a buffer.
  abbrev pub Refused : Trace → NetMsg → State → Type 0
  Refused t m s' =
      (is_neg m.connection ≡ false)
      × ((m.netbuf == 0) ≡ true)
      × Follows server.listener_socket.s may t s'.trace (closing m.connection)

  abbrev pub Buffered : Trace → NetMsg → State → Type 0
  Buffered t m s' =
      (is_neg m.connection ≡ false)
      × ((m.netbuf == 0) ≡ false)
      × Follows server.listener_socket.s may t s'.trace (buffered m.connection m.netbuf m.contents)

  -- What the receiving functions are given, what they leave, and what `net_msg_cleanup` is given.
  abbrev pub Ready : Trace → NetMsg → State → Type 0
  Ready t m s' = Unbuffered t m s' ⊎ (Buffered t m s' × (m.netbuf_size ≡ 4096))

  abbrev pub Received : Trace → ℤ × NetMsg → State → Type 0
  Received t (rc, m) s' =
      (Refused t m s' × (is_neg rc ≡ true)) ⊎ (Buffered t m s' × (m.netbuf_size ≡ 4096))

  abbrev pub Done : Trace → NetMsg → State → Type 0
  Done t m s' = Refused t m s' ⊎ Buffered t m s'

  -- Wherever a run is stopped, its calls kept to the protocol.
  abbrev pub Somewhere : Trace → State → Type 0
  Somewhere t s' = (a : Phase) × Follows server.listener_socket.s may t s'.trace a

  pub Received-Done :
      (t : Trace) (rc : ℤ) (m : NetMsg) (s : State) → Received t (rc, m) s → Done t m s
  Received-Done t rc m s (inl (r, n)) = inl r
  Received-Done t rc m s (inr (b, e)) = inr b

  pub Received-Got :
      (t : Trace) (rc : ℤ) (m : NetMsg) (s : State)
      → is_neg rc ≡ false
      → Received t (rc, m) s
      → Buffered t m s × (m.netbuf_size ≡ 4096)
  Received-Got t rc m s h (inl (r, n)) = cc
  Received-Got t rc m s h (inr b) = b

  pub Ready-Somewhere : (t : Trace) (m : NetMsg) (s : State) → Ready t m s → Somewhere t s
  Ready-Somewhere t m s (inl (_, _, f)) = (_, f)
  Ready-Somewhere t m s (inr ((_, _, f), _)) = (_, f)

  init_buffer-Received :
      (m : NetMsg) (t : Trace) (s : State)
      → Unbuffered t m s
      → Ends
          (λ (rc, m') s'.
            if is_zero rc
            then Buffered t m' s' × (m'.netbuf_size ≡ 4096)
            else Refused t m' s' × (is_neg rc ≡ true))
          Never
          (net_msg_init_buffer m s)
  unfolding net_msg_init_buffer
  init_buffer-Received m t s (v, e, f) = elim (Bool-cases (reply.ptr == 0)) [
    | inl empty ↦
        rw empty ((v, empty, next f (no_buffer m.connection reply (==→eq _ _ empty))), refl)
    | inr full ↦ rw full ((v, full, next f (buffer m.connection reply (ground arith))), refl)
  ]
    where
      reply : Reply
      reply = env.answer s.trace (malloc 4096)

  ensure_buffer-Received :
      (m : NetMsg) (t : Trace) (s : State)
      → Ready t m s
      → Ends
          (λ (rc, m') s'.
            if is_zero rc
            then Buffered t m' s' × (m'.netbuf_size ≡ 4096)
            else Refused t m' s' × (is_neg rc ≡ true))
          Never
          (ensure_buffer m s)
  unfolding ensure_buffer
  ensure_buffer-Received m t s (inl (v, e, f)) = rw e (init_buffer-Received m t s (v, e, f))
  ensure_buffer-Received m t s (inr ((v, e, f), n)) = rw e ((v, e, f), n)

  recv_once :
      (m : NetMsg) (t : Trace) (s : State)
      → Buffered t m s × (m.netbuf_size ≡ 4096)
      → Ends (Received t) Never (
          (call (recv m.connection m.netbuf_size) >>= λ r.
          pure (r.value, record m { contents = overwrite (pos_part r.value) r.bytes m.contents }))
            s)
  recv_once m t s ((v, full, f), n) =
      inr ((v, full, next f (receive m.connection m.netbuf m.contents m.netbuf_size _ n)), n)

  pub recv-Received :
      (m : NetMsg) (t : Trace) (s : State)
      → Ready t m s
      → Ends (Received t) Never (tcp_server_recv_msg m s)
  unfolding tcp_server_recv_msg
  recv-Received m t s ready =
      Ends.bind _ Never (Received t) (ensure_buffer m s) _ (ensure_buffer-Received m t s ready)
        λ (rc, m') s' b. elim (Bool-cases (is_zero rc)) [
          | inl good ↦ rw good (recv_once m' t s' (rw good at b))
          | inr bad ↦ rw bad (inl (rw bad at b))
        ]

  pub count_up-Done :
      (m : NetMsg) (t : Trace) (s : State)
      → may.answers ≡ true
      → Buffered t m s
      → Ends (λ _ s'. Done t (count_up m) s') Never (tcp_server_send_msg (count_up m) s)
  unfolding tcp_server_send_msg count_up le_bytes
  count_up-Done m t s answers (v, full, f) =
      rw full (inr (v, refl, next f (count m.connection m.netbuf m.contents _ answers)))

  pub net_msg_cleanup-listening :
      (m : NetMsg) (t : Trace) (s : State)
      → Done t m s
      → Ends
          (λ _ s'. Follows server.listener_socket.s may t s'.trace listening)
          Never
          (net_msg_cleanup m s)
  unfolding net_msg_cleanup
  net_msg_cleanup-listening m t s (inl (v, empty, f)) =
      rw empty (rw v (next f (hang_up m.connection _)))
  net_msg_cleanup-listening m t s (inr (v, full, f)) =
      rw full
        (rw v (next (next f (release m.connection m.netbuf m.contents _)) (hang_up m.connection _)))

  pub accept-Accepted :
      (t : Trace) (s : State)
      → Follows server.listener_socket.s may t s.trace listening
      → Ends
          (λ (rc, m) s'.
            if is_zero rc
            then Unbuffered t m s'
            else Follows server.listener_socket.s may t s'.trace listening)
          Never
          (tcp_server_accept server s)
  unfolding tcp_server_accept net_msg_cleanup
  accept-Accepted t s f = elim (Bool-cases (is_neg conn.value)) [
    | inl failed ↦ rw failed (next f (refuse conn failed))
    | inr connected ↦ rw connected (elim (Bool-cases (is_zero known.value)) [
      | inl good ↦
          rw good
            (connected, refl, next (next f (connect conn connected)) (name conn.value known good))
      | inr bad ↦ rw bad (
          rw bad (
            next (next (next f (connect conn connected)) (unnamed conn.value known bad))
              (hang_up conn.value _)))
    ])
  ]
    where
      conn : Reply
      conn = env.answer s.trace (accept server.listener_socket.s)

      known : Reply
      known =
          env.answer (event (accept server.listener_socket.s) conn ∷ s.trace)
            (getpeername conn.value)
