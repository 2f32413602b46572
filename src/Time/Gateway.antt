-- ===== src/Time/Gateway.antt =====
-- The gateway address that the boot-time report is sent to: os/posix/net_unikraft.c, called by
-- common/time.c.
use cloning_apps.Base.{ℕ, ℤ, ◌≡◌, ◌≢◌, false, Option, some, List, arith, is_zero, ◌∷◌}
use cloning_apps.System.{
  Env, State, Timeval, unikraft, stale_word, netdev_get, event, netdev_gateway, Trace,
}
use cloning_apps.System.Ends
use cloning_apps.System.Ends.{Ends, Never}
use cloning_apps.Net.{MySocket}
use cloning_apps.Net.Os.{os_net_ip_get_gw}
use cloning_apps.Time.{send_time, time_to_send}
use cloning_apps.Time.Report.{datagrams}

module _ ⦃env : Env⦄ where
  -- The call failed, and no datagram was sent.
  abbrev Unsent : State → ℤ → State → Type 0
  Unsent s rc s' = (is_zero rc ≡ false) × (datagrams s'.trace ≡ datagrams s.trace)

  os_net_ip_get_gw-Unsent :
      (ip : ℕ) (s : State)
      → env.platform ≡ unikraft
      → ((t : Trace) → (env.answer t netdev_gateway).ptr ≢ 0)
      → Ends (λ (rc, gw) s'. Unsent s rc s') Never (os_net_ip_get_gw ip s)
  unfolding os_net_ip_get_gw
  os_net_ip_get_gw-Unsent ip s e h =
      ground (arith, h (event netdev_get (env.answer s.trace netdev_get) ∷ s.trace))

  time_to_send-datagrams :
      (tv : Option Timeval) (s : State)
      → Ends (λ _ s'. datagrams s'.trace ≡ datagrams s.trace) Never (time_to_send tv s)
  unfolding time_to_send
  time_to_send-datagrams tv s = ground arith

  -- Under Unikraft, with a network device that has a gateway, `send_time` fails and sends nothing,
  -- since `os_net_ip_get_gw` returns 1 where its caller expects 0.
  pub send_time-Unsent :
      (rounds : ℕ) (sock : MySocket) (tv : Option Timeval) (suffix : Option (List ℕ)) (s : State)
      → env.platform ≡ unikraft
      → ((t : Trace) → (env.answer t netdev_gateway).ptr ≢ 0)
      → Ends (Unsent s) Never (send_time rounds (some sock) tv suffix s)
  unfolding send_time
  send_time-Unsent rounds sock tv suffix s e h =
      Ends.branch (Unsent s) Never s.globals.do_send_time _ _ s
        (λ _.
          Ends.bind _ _ (Unsent s) (time_to_send tv s) _ (time_to_send-datagrams tv s)
            λ (rc, now) s1 same.
              Ends.branch (Unsent s) Never (is_zero rc) _ _ s1
                (λ _.
                  Ends.bind _ _ (Unsent s) (os_net_ip_get_gw stale_word s1) _
                    (os_net_ip_get_gw-Unsent stale_word s1 e h)
                    λ (rc, gw) s2 (bad, same').
                      Ends.branch (Unsent s) Never (is_zero rc) _ _ s2 (λ good. ground arith)
                        λ failed. ground arith)
                λ failed. ground arith)
        λ failed. ground arith
