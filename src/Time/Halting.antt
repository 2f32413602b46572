-- ===== src/Time/Halting.antt =====
-- That `send_time` of common/time.c comes to an end on a system that falls silent.
use cloning_apps.Base.{
  ℕ, ℤ, zero, suc, pos, ◌+◌, ◌≤◌, ◌<◌, ◌≡◌, false, Option, none, some, List, arith, length, is_neg,
  is_zero, is_pos, ltb, ltb→lt, not_ltb→le, Bool-cases, inl, inr,
}
use cloning_apps.System.{Env, State, Timeval, Trace, recv}
use cloning_apps.System.Halts
use cloning_apps.System.Halts.{Halts}
use cloning_apps.System.Ends
use cloning_apps.System.Ends.{Ends, Never}
use cloning_apps.Net.{MySocket}
use cloning_apps.Net.Datagram.{udp_client_send, udp_client_recv, recv_within}
use cloning_apps.Net.Os.{os_socket_set_timeout, os_net_ip_get_gw}
use cloning_apps.Time.{send_loop, time_to_send, send_time, time_message}
use cloning_apps.Servers.Returns.Calls.{Silent}

module _ ⦃env : Env⦄ (n : ℕ) (silent : Silent env n) where
  send-Longer :
      (sock : MySocket) (gw port : ℕ) (bytes : List ℕ) (s : State)
      → Ends
          (λ _ s'. length s.trace ≤ length s'.trace)
          Never
          (udp_client_send (some sock) gw port bytes s)
  unfolding udp_client_send
  send-Longer sock gw port bytes s = ground arith

  -- An empty answer comes only before the silence.
  empty_before :
      (t : Trace) (d : ℤ) (k m : ℕ)
      → m ≤ length t
      → is_neg (env.answer t (recv d k)).value ≡ false
      → m < n
  empty_before t d k m le h = elim (Bool-cases (ltb (length t) n)) [
    | inl less ↦ omega (arith, ltb→lt (length t) n less)
    | inr more ↦ absurd (cc (silent.no_recv t d k (not_ltb→le (length t) n more)))
  ]

  set_timeout-Longer :
      (d ms : ℤ) (s : State)
      → Ends (λ _ s'. length s.trace ≤ length s'.trace) Never (os_socket_set_timeout d ms s)
  unfolding os_socket_set_timeout
  set_timeout-Longer d ms s = ground arith

  -- A round that is not the last one comes before the silence.
  recv-Longer :
      (sock : MySocket) (port size : ℕ) (s : State)
      → Ends
          (λ (rc, _) s'.
            is_neg rc ≡ false → (length s.trace < n) × (length s.trace + 1 ≤ length s'.trace))
          Never
          (udp_client_recv (some sock) port size (pos 2000) s)
  unfolding udp_client_recv recv_within
  recv-Longer sock port size s =
      Ends.bind_total _ _ _ (os_socket_set_timeout sock.s (pos 2000) s) _
        (set_timeout-Longer sock.s (pos 2000) s)
        λ rc s1 le.
          Ends.branch _ _ (is_neg rc) _ _ s1 (λ bad good. absurd (cc))
            λ _ good. (empty_before s1.trace sock.s size (length s.trace) le good, omega arith)

  -- More rounds than there are calls before the silence are enough.
  send_loop-Halts :
      (rounds : ℕ) (sock : MySocket) (gw : ℕ) (message : List ℕ) (s : State)
      → 0 < rounds
      → n < rounds + length s.trace
      → Halts (send_loop rounds (some sock) gw message s)
  unfolding send_loop
  send_loop-Halts zero sock gw message s some_rounds enough = absurd (omega arith)
  send_loop-Halts (suc rounds) sock gw message s some_rounds enough =
      Halts.bind_total _ (udp_client_send (some sock) gw 32764 message s) _
        (send-Longer sock gw 32764 message s)
        λ sent s1 le.
          Halts.branch (is_neg sent) _ _ s1 (λ _. tt)
            λ _.
              Halts.bind_total _ (udp_client_recv (some sock) 5000 64 (pos 2000) s1) _
                (recv-Longer sock 5000 64 s1)
                λ (got, _) s2 more.
                  Halts.branch (is_neg got) _ _ s2 (λ _. tt)
                    λ good.
                      Halts.branch (is_pos got) _ _ s2 (λ _. tt)
                        λ _.
                          send_loop-Halts rounds sock gw message s2
                            (omega (arith, le, enough, (more good).0))
                            (omega (arith, le, enough, (more good).1))

  gateway-Halts : (ip : ℕ) (s : State) → Halts (os_net_ip_get_gw ip s)
  unfolding os_net_ip_get_gw
  gateway-Halts ip s = ground arith

  -- If from `n` calls on nothing can be received, `n + 1` rounds are enough for `send_time`:
  -- it comes to an end.
  pub send_time-Halts :
      (rounds : ℕ) (sock : MySocket) (tv : Option Timeval) (suffix : Option (List ℕ)) (s : State)
      → n < rounds
      → Halts (send_time rounds (some sock) tv suffix s)
  unfolding send_time time_to_send
  send_time-Halts rounds sock tv suffix s enough =
      Halts.branch s.globals.do_send_time _ _ s
        (λ _. Halts.bind (time_to_send tv s) _ (time tv) λ (rc, now) s1.
          Halts.branch (is_zero rc) _ _ s1
            (λ _.
              Halts.bind (os_net_ip_get_gw env.stale_word s1) _ (gateway-Halts env.stale_word s1)
                λ (rc', gw) s2.
                  Halts.branch (is_zero rc') _ _ s2
                    (λ _.
                      send_loop-Halts rounds sock gw (time_message now suffix) s2 (omega arith)
                        (omega arith))
                    λ _. tt)
            λ _. tt)
        λ _. tt
    where
      time : (tv : Option Timeval) → Halts (time_to_send tv s)
      time (some tv) = tt
      time none = tt
