-- ===== src/Prologue/Reports.antt =====
-- What a boot-time report leaves alone: `send_time` of common/time.c through a socket of its
-- caller's, as server-common.c calls it.
use cloning_apps.Base.{
  ℕ, ℤ, zero, suc, ◌≡◌, Option, some, List, arith, is_neg, is_zero, is_pos, pos, refl,
}
use cloning_apps.System.{Env, State, Timeval, stale_word}
use cloning_apps.System.Ends
use cloning_apps.System.Ends.{Ends, Never}
use cloning_apps.System.Ledger.{Balanced, Even, no_books}
use cloning_apps.Net.{MySocket}
use cloning_apps.Net.Datagram.{udp_client_send, udp_client_recv, recv_within}
use cloning_apps.Net.Os.{os_net_ip_get_gw}
use cloning_apps.Time.{send_loop, send_time, time_to_send, time_message}
use cloning_apps.Prologue.Fork.{forks}

module _ ⦃env : Env⦄ (fd : ℤ) (p : ℕ) where
  -- The books are even since `s`, no process was forked, and the global variables are the same.
  abbrev pub Quiet : State → State → Type 0
  Quiet s s' =
      Balanced fd p s.trace s'.trace × (forks s'.trace ≡ forks s.trace) × (s'.globals ≡ s.globals)

  Quiet-then : (s s1 s2 : State) → Quiet s s1 → Quiet s1 s2 → Quiet s s2
  Quiet-then s s1 s2 (b, f, g) (b', f', g') = (omega arith, omega arith, cc)

  udp_client_send-Quiet :
      (sock : MySocket) (gw port : ℕ) (bytes : List ℕ) (s : State)
      → Ends (λ _ s'. Quiet s s') Never (udp_client_send (some sock) gw port bytes s)
  unfolding udp_client_send
  udp_client_send-Quiet sock gw port bytes s = ground arith

  udp_client_recv-Quiet :
      (sock : MySocket) (port size : ℕ) (ms : ℤ) (s : State)
      → Ends (λ _ s'. Quiet s s') Never (udp_client_recv (some sock) port size ms s)
  unfolding udp_client_recv recv_within
  udp_client_recv-Quiet sock port size ms s = ground arith

  get_gw-Quiet : (ip : ℕ) (s : State) → Ends (λ _ s'. Quiet s s') Never (os_net_ip_get_gw ip s)
  unfolding os_net_ip_get_gw
  get_gw-Quiet ip s = ground arith

  time_to_send-Quiet :
      (tv : Option Timeval) (s : State) → Ends (λ _ s'. Quiet s s') Never (time_to_send tv s)
  unfolding time_to_send
  time_to_send-Quiet tv s = ground arith

  send_loop-Quiet :
      (rounds : ℕ) (sock : MySocket) (gw : ℕ) (message : List ℕ) (s0 s : State)
      → Quiet s0 s
      → Ends (λ _ s'. Quiet s0 s') (λ s'. Quiet s0 s') (send_loop rounds (some sock) gw message s)
  unfolding send_loop
  send_loop-Quiet zero sock gw message s0 s q = q
  send_loop-Quiet (suc rounds) sock gw message s0 s q =
      Ends.bind_total _ _ _ (udp_client_send (some sock) gw 32764 message s) _
        (udp_client_send-Quiet sock gw 32764 message s)
        λ sent s1 q1.
          Ends.branch _ _ (is_neg sent) _ _ s1 (λ _. Quiet-then s0 s s1 q q1)
            λ _.
              Ends.bind_total _ _ _ (udp_client_recv (some sock) 5000 64 (pos 2000) s1) _
                (udp_client_recv-Quiet sock 5000 64 (pos 2000) s1)
                λ (got, _) s2 q2.
                  let all : Quiet s0 s2 = Quiet-then s0 s s2 q (Quiet-then s s1 s2 q1 q2) in
                  Ends.branch _ _ (is_neg got) _ _ s2 (λ _. all)
                    λ _.
                      Ends.branch _ _ (is_pos got) _ _ s2 (λ _. all)
                        λ _. send_loop-Quiet rounds sock gw message s0 s2 all

  -- A report through a socket of the caller's acquires nothing that it does not give back, forks
  -- nothing, and leaves the global variables as they are, also when it fails or is stopped.
  pub send_time-Quiet :
      (rounds : ℕ) (sock : MySocket) (tv : Option Timeval) (suffix : Option (List ℕ)) (s : State)
      → Ends (λ _ s'. Quiet s s') (λ s'. Quiet s s') (send_time rounds (some sock) tv suffix s)
  unfolding send_time
  send_time-Quiet rounds sock tv suffix s =
      Ends.branch _ _ s.globals.do_send_time _ _ s
        (λ _.
          Ends.bind_total _ _ _ (time_to_send tv s) _ (time_to_send-Quiet tv s) λ (rc, now) s1 q1.
            Ends.branch _ _ (is_zero rc) _ _ s1
              (λ _.
                Ends.bind_total _ _ _ (os_net_ip_get_gw stale_word s1) _
                  (get_gw-Quiet stale_word s1)
                  λ (rc, gw) s2 q2.
                    let both : Quiet s s2 = Quiet-then s s1 s2 q1 q2 in
                    Ends.branch _ _ (is_zero rc) _ _ s2
                      (λ _. send_loop-Quiet rounds sock gw (time_message now suffix) s s2 both)
                      λ _. both)
              λ _. q1)
        λ _. (omega arith, refl, refl)

module _ ⦃env : Env⦄ where
  -- The same, with every number's books at once.
  abbrev pub Still : State → State → Type 0
  Still s s' = Even s.trace s'.trace × (forks s'.trace ≡ forks s.trace) × (s'.globals ≡ s.globals)

  pub send_time-Still :
      (rounds : ℕ) (sock : MySocket) (tv : Option Timeval) (suffix : Option (List ℕ)) (s : State)
      → Ends (λ _ s'. Still s s') (λ s'. Still s s') (send_time rounds (some sock) tv suffix s)
  send_time-Still rounds sock tv suffix s =
      Ends.mono _ _ _ _ (send_time rounds (some sock) tv suffix s)
        (Ends.all no_books _ _ (send_time rounds (some sock) tv suffix s)
          λ b. send_time-Quiet b.0 b.1 rounds sock tv suffix s)
        (λ _ s' q. ((λ b. (q b).0), (q no_books).1, (q no_books).2))
        λ s' q. ((λ b. (q b).0), (q no_books).1, (q no_books).2)
