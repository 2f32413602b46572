-- ===== src/Servers/Counter.antt =====
-- What a client of counter.c gets back.
use cloning_apps.Base.{
  ℕ, pos, suc, ◌+◌, ◌-◌, ◌%◌, ◌^◌, ◌≤◌, ◌<◌, ◌≡◌, ◌≢◌, refl, arith, List, ◌∷◌, ◌++◌, take, drop,
  le_bytes, from_le_bytes-le_bytes4, ◌==◌, false,
}
use cloning_apps.System.{Env, State, Reply, Trace, malloc, recv, send, event, ok}
use cloning_apps.System.Ends.{Ends, Never}
use cloning_apps.Net.{NetMsg, fit, overwrite, tcp_server_recv_msg, tcp_server_send_msg}
use cloning_apps.Servers.{count_up, is_largest, handle_counter}

take4-overwrite :
    (n c : ℕ) (more old : List ℕ)
    → 4 ≤ n
    → take 4 (overwrite n (le_bytes 4 c ++ more) old) ≡ le_bytes 4 c
unfolding overwrite le_bytes
take4-overwrite n c more old h = let e : n ≡ suc (suc (suc (suc (n - 4)))) = omega arith in rw e

take4-le_bytes : (n : ℕ) (rest : List ℕ) → take 4 (le_bytes 4 n ++ rest) ≡ le_bytes 4 n
unfolding le_bytes
take4-le_bytes n rest = refl

-- The reply to a counter: the message's first four bytes, read back.
take4-count_up :
    (m : NetMsg) (c : ℕ)
    → c < 2 ^ 32
    → take 4 m.contents ≡ le_bytes 4 c
    → take (count_up m).netbuf_size (count_up m).contents ≡ le_bytes 4 ((c + 1) % 2 ^ 32)
unfolding count_up
take4-count_up m c h e = rw (e, from_le_bytes-le_bytes4 c h) (take4-le_bytes _ (drop 4 m.contents))

module _ ⦃env : Env⦄ where
  recv_first :
      (m : NetMsg) (s : State) (n : ℕ)
      → m.netbuf ≡ 0
      → let got = env.answer s.trace (malloc 4096) in
        let t1 : Trace = event (malloc 4096) got ∷ s.trace in
        let read = env.answer t1 (recv m.connection 4096) in
        got.ptr ≢ 0
        → read.value ≡ pos n
        → tcp_server_recv_msg m s
          ≡ ok
              (
                pos n,
                record m {
                  netbuf = got.ptr;
                  netbuf_size = 4096;
                  contents = overwrite n read.bytes (fit 4096 got.bytes);
                },
              )
              (record s { trace = event (recv m.connection 4096) read ∷ t1 })
  unfolding tcp_server_recv_msg
  recv_first m s n e he hv = ground arith

  send_lem :
      (m : NetMsg) (s : State)
      → m.netbuf ≢ 0
      → let sent = send m.connection (take m.netbuf_size m.contents) in
        tcp_server_send_msg m s
        ≡ ok
            (env.answer s.trace sent).value
            (record s { trace = event sent (env.answer s.trace sent) ∷ s.trace })
  unfolding tcp_server_send_msg
  send_lem m s h = ground arith

  -- When a client sends a counter as its first four bytes, lowest byte first, and it is not the
  -- largest `int`, counter.c sends back exactly four bytes, the counter plus one modulo 2 ^ 32 in the same form, on the same
  -- connection.
  pub handle_counter-reply :
      (m : NetMsg) (s : State) (n c : ℕ) (more : List ℕ)
      → c < 2 ^ 32
      → c ≢ 2 ^ 31 - 1
      → 4 ≤ n
      → m.netbuf ≡ 0
      → let got = env.answer s.trace (malloc 4096) in
        let t1 : Trace = event (malloc 4096) got ∷ s.trace in
        let read = env.answer t1 (recv m.connection 4096) in
        let t2 : Trace = event (recv m.connection 4096) read ∷ t1 in
        let reply = send m.connection (le_bytes 4 ((c + 1) % 2 ^ 32)) in
        got.ptr ≢ 0
        → read.value ≡ pos n
        → read.bytes ≡ le_bytes 4 c ++ more
        → Ends
            (λ (rc, _) s'.
              (s'.trace ≡ event reply (env.answer t2 reply) ∷ t2)
              × (rc ≡ (env.answer t2 reply).value))
            Never
            (handle_counter m s)
  unfolding handle_counter count_up
  handle_counter-reply m s n c more hc defined hn e he hv hb =
      let z : (n == 0) ≡ false = ground arith in
      let kept : take 4 received.contents ≡ le_bytes 4 c =
        rw hb (take4-overwrite n c more (fit 4096 got.bytes) hn) in
      let small : is_largest received ≡ false =
        rw (kept, from_le_bytes-le_bytes4 c hc) (ground (arith, defined)) in
      rw
        (
          recv_first m s n e he hv,
          z,
          small,
          send_lem (count_up received) _ he,
          take4-count_up received c hc kept,
        )
        (refl, refl)
    where
      got : Reply
      got = env.answer s.trace (malloc 4096)

      read : Reply
      read = env.answer (event (malloc 4096) got ∷ s.trace) (recv m.connection 4096)

      received : NetMsg
      received = record m {
        netbuf = got.ptr;
        netbuf_size = 4096;
        contents = overwrite n read.bytes (fit 4096 got.bytes);
      }
