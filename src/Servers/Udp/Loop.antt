-- ===== src/Servers/Udp/Loop.antt =====
-- The loop of server-udp.c announces as the reference says.
use cloning_apps.Base.{
  ℕ, ℤ, zero, suc, ◌≡◌, ◌≢◌, true, List, [], ◌∷◌, if◌then◌else◌, is_neg, Bool-cases, inl, inr, refl,
  minus_one,
}
use cloning_apps.System.{Env, State, Trace, Run, SockAddr, event, Cmd, call, ◌>>◌, announce}
use cloning_apps.System.Ends
use cloning_apps.System.Ends.{Ends, Never}
use cloning_apps.Net.{MySocket, NetMsg, zero_msg, net_msg_cleanup}
use cloning_apps.Net.Datagram.{udp_server_recv_msg}
use cloning_apps.Servers.{serve_udp, is_new_client}
use cloning_apps.Servers.Udp.{
  Heard, Remembers, is_change, changes, NoPortZero, Announces, recv-Heard, announce-Heard,
  net_msg_cleanup-Heard, is_new_client-is_change, Remembers-old,
}

module _ ⦃env : Env⦄ where
  Heard-Announces :
      (t : Trace) (xs : List SockAddr) (s : State) → Heard t (changes xs) xs s → Announces t s.trace
  Heard-Announces t xs s (v, e, ea, es) = (v, e, rw es ea)

  -- The outcome of the loop: it only returns an error.
  abbrev Fails : Trace → Run ℤ → Type 0
  Fails t = Ends (λ rc s'. (is_neg rc ≡ true) × Announces t s'.trace) (λ s'. Announces t s'.trace)

  -- A round in which a datagram came, before the others.
  received-Fails :
      (rest : SockAddr → ℕ → Cmd ℤ) (a : SockAddr) (port : ℕ) (t : Trace) (xs : List SockAddr)
      (m : NetMsg) (s : State)
      → ((a : SockAddr) (port : ℕ) (xs : List SockAddr) (s : State)
          → Remembers a port xs
          → Heard t (changes xs) xs s
          → Fails t (rest a port s))
      → Remembers a port xs
      → Heard t (changes xs) (m.client_addr ∷ xs) s × (m.client_addr.port ≢ 0)
      → Fails t (
          (if is_new_client a port m.client_addr
              then (do
                call (announce m.client_addr)
                net_msg_cleanup m
                rest m.client_addr m.client_addr.port)
              else (do net_msg_cleanup m; rest a port))
            s)
  received-Fails rest a port t xs m s others mem (h, nz) =
      let same = is_new_client-is_change a m.client_addr port xs nz mem in
      let told = record s {
        trace =
            event (announce m.client_addr) (env.answer s.trace (announce m.client_addr)) ∷ s.trace;
      } in
      elim (Bool-cases (is_change m.client_addr xs)) [
        | inl new ↦
            rw (same, new)
              (Ends.bind_total _ _ _ (net_msg_cleanup m told) _
                (net_msg_cleanup-Heard m t (m.client_addr ∷ changes xs) (m.client_addr ∷ xs) told
                  (announce-Heard m.client_addr _ t (changes xs) (m.client_addr ∷ xs) s h))
                λ _ s' h'.
                  others m.client_addr m.client_addr.port (m.client_addr ∷ xs) s' (refl, refl, refl)
                    (rw new h'))
        | inr old ↦
            rw (same, old)
              (Ends.bind_total _ _ _ (net_msg_cleanup m s) _
                (net_msg_cleanup-Heard m t (changes xs) (m.client_addr ∷ xs) s h)
                λ _ s' h'.
                  others a port (m.client_addr ∷ xs) s'
                    (Remembers-old a m.client_addr port xs old mem) (rw old h'))
      ]

  -- The loop, with the senders so far.
  serve_udp-Heard :
      NoPortZero env
      → (fuel : ℕ) (sock : MySocket) (a : SockAddr) (port : ℕ) (t : Trace) (xs : List SockAddr)
        (s : State)
      → Remembers a port xs
      → Heard t (changes xs) xs s
      → Fails t (serve_udp fuel sock a port s)
  unfolding serve_udp
  serve_udp-Heard nz zero sock a port t xs s mem h = Heard-Announces t xs s h
  serve_udp-Heard nz (suc fuel) sock a port t xs s mem h =
      Ends.bind_total _ _ _
        (udp_server_recv_msg sock (record zero_msg { connection = minus_one }) s) _
        (recv-Heard sock t (changes xs) xs s nz h)
        λ (rc, m) s' got. elim (Bool-cases (is_neg rc)) [
          | inl failed ↦ rw failed (failed, Heard-Announces t xs s' (rw failed at got))
          | inr heard ↦ rw heard (
              received-Fails (serve_udp fuel sock) a port t xs m s'
                (λ a port xs s. serve_udp-Heard nz fuel sock a port t xs s) mem (rw heard at got))
        ]

  -- If no datagram comes from port 0, the loop of server-udp.c, started as the program starts it,
  -- announces exactly those senders that differ from the sender before them, in their order, also
  -- when it is stopped after any number of rounds. It makes no fault and only returns an error.
  pub serve_udp-changes :
      NoPortZero env
      → (fuel : ℕ) (listener : MySocket) (stale : SockAddr) (s : State)
      → Ends
          (λ rc s'. (is_neg rc ≡ true) × Announces s.trace s'.trace)
          (λ s'. Announces s.trace s'.trace)
          (serve_udp fuel listener stale 0 s)
  serve_udp-changes nz fuel listener stale s =
      serve_udp-Heard nz fuel listener stale 0 s.trace [] s refl ([], refl, refl, refl)
