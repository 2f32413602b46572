-- ===== src/Time/Report.antt =====
-- The loop of `send_time` in common/time.c: reports and their acknowledgements.
use cloning_apps.Base.{
  ℕ, ℤ, zero, suc, pos, ◌≡◌, ◌<◌, true, some, List, [], ◌∷◌, arith, is_neg, is_zero, is_pos,
  if◌then◌else◌, ◌+◌,
}
use cloning_apps.System.{
  Env, State, Call, Trace, Timeval, recv_timeout, recv_timeout_ms, sendto, recv, event,
}
use cloning_apps.System.Ends
use cloning_apps.System.Ends.{Ends, Never}
use cloning_apps.Net.{MySocket}
use cloning_apps.Net.Datagram.{udp_client_send, udp_client_recv, recv_within}
use cloning_apps.Net.Os.{os_socket_set_timeout}
use cloning_apps.Time.{send_loop}

-- The datagrams that a trace has sent.
abbrev pub is_sendto : Call → ℕ
is_sendto (sendto _ _ _) = 1
is_sendto _ = 0

abbrev pub datagrams : Trace → ℕ
datagrams [] = 0
datagrams (e ∷ t) = is_sendto e.made + datagrams t

-- The newest call is a `recv` that stored at least one byte.
abbrev pub IsAck : Call → ℤ → Type 0
IsAck (recv _ _) n = is_pos n ≡ true
IsAck _ n = ⊥

abbrev pub Acknowledged : Trace → Type 0
Acknowledged [] = ⊥
Acknowledged (e ∷ t) = IsAck e.made e.reply.value

module _ ⦃env : Env⦄ where
  -- What the two calls of a round leave.
  udp_client_send-sent :
      (sock : MySocket) (gw port : ℕ) (bytes : List ℕ) (s : State)
      → Ends
          (λ _ s'. datagrams s'.trace ≡ suc (datagrams s.trace))
          Never
          (udp_client_send (some sock) gw port bytes s)
  unfolding udp_client_send
  udp_client_send-sent sock gw port bytes s = ground arith

  udp_client_recv-answer :
      (sock : MySocket) (port size : ℕ) (s : State)
      → Ends
          (λ (rc, _) s'.
            (datagrams s'.trace ≡ datagrams s.trace)
            × (if is_pos rc then Acknowledged s'.trace else Unit))
          Never
          (udp_client_recv (some sock) port size (pos 2000) s)
  unfolding udp_client_recv recv_within
  udp_client_recv-answer sock port size s = ground arith

  udp_client_recv-lost :
      (sock : MySocket) (port size : ℕ) (s : State)
      → ((t : Trace) → is_neg (env.answer t (recv sock.s size)).value ≡ true)
      → Ends
          (λ (rc, _) s'. (is_neg rc ≡ true) × (datagrams s'.trace ≡ datagrams s.trace))
          Never
          (udp_client_recv (some sock) port size (pos 2000) s)
  unfolding udp_client_recv recv_within os_socket_set_timeout
  udp_client_recv-lost sock port size s lost =
      let tv : Timeval = record { sec = pos 2; usec = pos 0 } in
      let a = recv_timeout sock.s tv in
      let b = recv_timeout_ms sock.s (pos 2000) in
      ground (
        arith,
        lost (event a (env.answer s.trace a) ∷ s.trace),
        lost (event b (env.answer s.trace b) ∷ s.trace),
      )

  -- When `send_loop` returns 0 through a socket of its caller's, the last thing that happened is an
  -- acknowledgement of at least one byte. It sends at least one datagram, and makes no fault.
  pub send_loop-Acknowledged :
      (rounds : ℕ) (sock : MySocket) (gw : ℕ) (message : List ℕ) (s : State)
      → Ends
          (λ rc s'.
            (if is_zero rc then Acknowledged s'.trace else Unit)
            × (datagrams s.trace < datagrams s'.trace))
          (λ _. Unit)
          (send_loop rounds (some sock) gw message s)
  unfolding send_loop
  send_loop-Acknowledged zero sock gw message s = tt
  send_loop-Acknowledged (suc rounds) sock gw message s =
      Ends.bind_total (λ _ s'. datagrams s'.trace ≡ suc (datagrams s.trace)) _ _
        (udp_client_send (some sock) gw 32764 message s) _
        (udp_client_send-sent sock gw 32764 message s)
        λ sent s1 one.
          Ends.branch _ _ (is_neg sent) _ _ s1 (λ bad. ground arith)
            λ _.
              Ends.bind_total
                (λ (rc, _) s'.
                  (datagrams s'.trace ≡ datagrams s1.trace)
                  × (if is_pos rc then Acknowledged s'.trace else Unit))
                _ _ (udp_client_recv (some sock) 5000 64 (pos 2000) s1) _
                (udp_client_recv-answer sock 5000 64 s1)
                λ (got, _) s2 (same, ack).
                  Ends.branch _ _ (is_neg got) _ _ s2 (λ bad. ground arith)
                    λ _.
                      Ends.branch _ _ (is_pos got) _ _ s2 (λ good. (rw good at ack, omega arith))
                        λ _.
                          Ends.mono _ _ _ _ (send_loop rounds (some sock) gw message s2)
                            (send_loop-Acknowledged rounds sock gw message s2)
                            (λ rc s' (a, more). (a, omega arith)) (λ s' h. h)

  -- When every `recv` on the socket fails, `send_loop` sends one datagram, which it does not send
  -- again, and returns a negative number.
  pub send_loop-gives_up :
      (rounds : ℕ) (sock : MySocket) (gw : ℕ) (message : List ℕ) (s : State)
      → ((t : Trace) → is_neg (env.answer t (recv sock.s 64)).value ≡ true)
      → Ends
          (λ rc s'. (is_neg rc ≡ true) × (datagrams s'.trace ≡ suc (datagrams s.trace)))
          Never
          (send_loop (suc rounds) (some sock) gw message s)
  unfolding send_loop
  send_loop-gives_up rounds sock gw message s lost =
      Ends.bind_total (λ _ s'. datagrams s'.trace ≡ suc (datagrams s.trace)) _ _
        (udp_client_send (some sock) gw 32764 message s) _
        (udp_client_send-sent sock gw 32764 message s)
        λ sent s1 one.
          Ends.branch _ _ (is_neg sent) _ _ s1 (λ bad. (bad, one))
            λ _.
              Ends.bind_total
                (λ (rc, _) s'. (is_neg rc ≡ true) × (datagrams s'.trace ≡ datagrams s1.trace)) _ _
                (udp_client_recv (some sock) 5000 64 (pos 2000) s1) _
                (udp_client_recv-lost sock 5000 64 s1 lost)
                λ (got, _) s2 (bad, same). rw bad (bad, omega arith)
