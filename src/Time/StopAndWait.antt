-- ===== src/Time/StopAndWait.antt =====
-- The protocol by which `send_time` of common/time.c delivers a report: send it, wait for the
-- answer, and send it again only after an empty one.
use cloning_apps.Base.{
  ℕ, ℤ, zero, suc, pos, ◌+◌, ◌≡◌, ◌⊎◌, refl, sub_ℕ, true, false, some, List, [], ◌∷◌, arith, is_neg,
  is_zero, is_pos, if◌then◌else◌, Bool-cases, inl, inr,
}
use cloning_apps.System.{
  Env, State, Call, Trace, SockAddr, Reply, recv_timeout, recv_timeout_ms, sendto, recv, event, Cmd,
  Platform, posix, unikraft, minios,
}
use cloning_apps.System.Ends
use cloning_apps.System.Ends.{Ends, Never}
use cloning_apps.Net.{MySocket, servaddr_init}
use cloning_apps.Net.Datagram.{udp_client_send, udp_client_recv, recv_within}
use cloning_apps.Net.Os.{
  os_socket_set_timeout, os_socket_set_timeout_posix, os_socket_set_timeout_minios,
}
use cloning_apps.Time.{send_loop}
use cloning_apps.Time.Report.{is_sendto, datagrams}

-- Ready to send; sent; waiting for at most two seconds; answered; given up.
pub data Phase : Type 0 where
  ready sent waiting answered failed : Phase

-- The calls that limit the wait on a socket to two seconds, on the one platform or the other.
abbrev pub LimitsWait : ℤ → Call → Type 0
LimitsWait d (recv_timeout e tv) = (e ≡ d) × (tv ≡ record { sec = pos 2; usec = pos 0 })
LimitsWait d (recv_timeout_ms e ms) = (e ≡ d) × (ms ≡ pos 2000)
LimitsWait d _ = ⊥

-- The call succeeded. POSIX reports a failure by `-errno`, which is no failure if `errno` is 0.
abbrev pub IsLimited : Call → Reply → Type 0
IsLimited (recv_timeout _ _) r = (is_neg r.value ≡ false) ⊎ (r.errno ≡ 0)
IsLimited _ r = is_neg r.value ≡ false

-- A call with its reply leads from one phase to another, for the socket `d`, the address `to` and
-- the text `message`.
pub data Step (d : ℤ) (to : SockAddr) (message : List ℕ)
    : Phase → Call → Reply → Phase → Type 0 where
  transmit :
      (r : Reply) → is_neg r.value ≡ false → Step d to message ready (sendto d to message) r sent
  unsent :
      (r : Reply) → is_neg r.value ≡ true → Step d to message ready (sendto d to message) r failed
  limit :
      (c : Call) (r : Reply) → LimitsWait d c → IsLimited c r → Step d to message sent c r waiting
  unlimited :
      (c : Call) (r : Reply)
      → LimitsWait d c
      → is_neg r.value ≡ true
      → Step d to message sent c r failed
  acknowledge :
      (r : Reply) → is_pos r.value ≡ true → Step d to message waiting (recv d 64) r answered
  empty_answer : (r : Reply) → r.value ≡ pos 0 → Step d to message waiting (recv d 64) r ready
  unanswered : (r : Reply) → is_neg r.value ≡ true → Step d to message waiting (recv d 64) r failed

-- The calls from the trace `t` on, up to the second trace, lead from `ready` to the phase.
pub data Follows (d : ℤ) (to : SockAddr) (message : List ℕ) (t : Trace)
    : Trace → Phase → Type 0 where
  here : Follows d to message t t ready
  next :
      {u : Trace} {a b : Phase} {c : Call} {r : Reply}
      → Follows d to message t u a
      → Step d to message a c r b
      → Follows d to message t (event c r ∷ u) b

-- The empty answers in a trace.
abbrev pub is_empty_answer : Call → ℤ → ℕ
is_empty_answer (recv _ _) n = if is_zero n then 1 else 0
is_empty_answer _ n = 0

abbrev pub empty_answers : Trace → ℕ
empty_answers [] = 0
empty_answers (e ∷ t) = is_empty_answer e.made e.reply.value + empty_answers t

-- The report that was sent since the last empty answer.
abbrev pending : Phase → ℕ
pending ready = 0
pending _ = 1

-- `b` reports were sent beyond one for each empty answer.
abbrev pub SentBeyond : ℕ → Trace → Trace → Type 0
SentBeyond b t u = datagrams u + empty_answers t ≡ datagrams t + empty_answers u + b

waits :
    (d : ℤ) (c : Call) (r : Reply)
    → LimitsWait d c
    → (is_sendto c ≡ 0) × (is_empty_answer c r.value ≡ 0)
waits d (recv_timeout e tv) r h = (refl, refl)
waits d (recv_timeout_ms e ms) r h = (refl, refl)
waits d _ r h = absurd h

Step-SentBeyond :
    {d : ℤ} {to : SockAddr} {message : List ℕ} {a : Phase} {c : Call} {r : Reply} {b : Phase}
    (t u : Trace)
    → Step d to message a c r b
    → SentBeyond (pending a) t u
    → SentBeyond (pending b) t (event c r ∷ u)
Step-SentBeyond t u (transmit r h) e = omega arith
Step-SentBeyond t u (unsent r h) e = omega arith
Step-SentBeyond {d} t u (limit c r h l) e = ground (arith, waits d c r h)
Step-SentBeyond {d} t u (unlimited c r h n) e = ground (arith, waits d c r h)
Step-SentBeyond t u (acknowledge r h) e = ground arith
Step-SentBeyond t u (empty_answer r h) e = ground arith
Step-SentBeyond t u (unanswered r h) e = ground arith

-- Whoever follows the protocol has sent the report once, and once more for each empty answer.
Follows-SentBeyond :
    {d : ℤ} {to : SockAddr} {message : List ℕ} (t : Trace) {u : Trace} {a : Phase}
    → Follows d to message t u a
    → SentBeyond (pending a) t u
Follows-SentBeyond t here = omega arith
Follows-SentBeyond t (next {u} f st) = Step-SentBeyond t u st (Follows-SentBeyond t f)

module _ ⦃env : Env⦄ (sock : MySocket) (gw : ℕ) (message : List ℕ) (t : Trace) where
  abbrev pub At : Phase → State → Type 0
  At a s' = Follows sock.s (servaddr_init gw 32764) message t s'.trace a

  send-At :
      (s : State)
      → At ready s
      → Ends
          (λ rc s'. if is_neg rc then At failed s' else At sent s')
          Never
          (udp_client_send (some sock) gw 32764 message s)
  unfolding udp_client_send
  send-At s f = elim (Bool-cases (is_neg r.value)) [
    | inl bad ↦ rw bad (next f (unsent r bad))
    | inr good ↦ rw good (next f (transmit r good))
  ]
    where
      r : Reply
      r = env.answer s.trace (sendto sock.s (servaddr_init gw 32764) message)

  abbrev Limited : ℤ → State → Type 0
  Limited rc s' = if is_neg rc then At failed s' else At waiting s'

  limit_posix-At :
      (s : State) → At sent s → Ends Limited Never (os_socket_set_timeout_posix sock.s (pos 2000) s)
  unfolding os_socket_set_timeout_posix
  limit_posix-At s f = elim (Bool-cases (is_neg r.value)) [
    | inr good ↦ rw good (rw good (next f (limit c r (refl, refl) (inl good))))
    | inl bad ↦ rw bad (elim (Bool-cases (is_neg (sub_ℕ 0 r.errno))) [
      | inl coded ↦ rw coded (next f (unlimited c r (refl, refl) bad))
      | inr lost ↦ rw lost (next f (limit c r (refl, refl) (inr (ground (arith, lost)))))
    ])
  ]
    where
      c : Call
      c = recv_timeout sock.s (record { sec = pos 2; usec = pos 0 })

      r : Reply
      r = env.answer s.trace c

  limit_minios-At :
      (s : State)
      → At sent s
      → Ends Limited Never (os_socket_set_timeout_minios sock.s (pos 2000) s)
  unfolding os_socket_set_timeout_minios
  limit_minios-At s f = elim (Bool-cases (is_neg r.value)) [
    | inr good ↦ rw good (next f (limit c r (refl, refl) good))
    | inl bad ↦ rw bad (next f (unlimited c r (refl, refl) bad))
  ]
    where
      c : Call
      c = recv_timeout_ms sock.s (pos 2000)

      r : Reply
      r = env.answer s.trace c

  limit-At :
      (s : State) → At sent s → Ends Limited Never (os_socket_set_timeout sock.s (pos 2000) s)
  unfolding os_socket_set_timeout
  limit-At s f = on env.platform
    where
      on :
          (b : Platform)
          → Ends Limited Never (
              (let run : Cmd ℤ = elim b [
                | minios ↦ os_socket_set_timeout_minios sock.s (pos 2000)
                | _ ↦ os_socket_set_timeout_posix sock.s (pos 2000)
              ] in
                  run)
                s)
      on posix = limit_posix-At s f
      on unikraft = limit_posix-At s f
      on minios = limit_minios-At s f

  -- After the wait.
  abbrev Heard : ℤ → State → Type 0
  Heard rc s' =
      if is_neg rc then At failed s' else if is_pos rc then At answered s' else At ready s'

  wait-At :
      (s : State)
      → At waiting s
      → let r = env.answer s.trace (recv sock.s 64) in
        Heard r.value (record s { trace = event (recv sock.s 64) r ∷ s.trace })
  wait-At s f = elim (Bool-cases (is_neg r.value)) [
    | inl bad ↦ rw bad (next f (unanswered r bad))
    | inr good ↦ rw good (elim (Bool-cases (is_pos r.value)) [
      | inl some_bytes ↦ rw some_bytes (next f (acknowledge r some_bytes))
      | inr empty ↦ rw empty (next f (empty_answer r (ground (arith, good, empty))))
    ])
  ]
    where
      r : Reply
      r = env.answer s.trace (recv sock.s 64)

  recv-At :
      (s : State)
      → At sent s
      → Ends (λ (rc, _) s'. Heard rc s') Never (udp_client_recv (some sock) 5000 64 (pos 2000) s)
  unfolding udp_client_recv recv_within
  recv-At s f =
      Ends.bind_total _ Never _ (os_socket_set_timeout sock.s (pos 2000) s) _ (limit-At s f)
        λ rc s1 limited. elim (Bool-cases (is_neg rc)) [
          | inl bad ↦ rw bad (rw bad (rw bad at limited))
          | inr good ↦ rw good (wait-At s1 (rw good at limited))
        ]

  -- From anywhere in the loop.
  send_loop-Follows :
      (rounds : ℕ) (s : State)
      → At ready s
      → Ends
          (λ rc s'. ((rc ≡ pos 0) × At answered s') ⊎ ((is_neg rc ≡ true) × At failed s'))
          (At ready)
          (send_loop rounds (some sock) gw message s)
  unfolding send_loop
  send_loop-Follows zero s f = f
  send_loop-Follows (suc rounds) s f =
      Ends.bind_total _ _ _ (udp_client_send (some sock) gw 32764 message s) _ (send-At s f)
        λ rc s1 after. elim (Bool-cases (is_neg rc)) [
          | inl bad ↦ rw bad (inr (bad, rw bad at after))
          | inr good ↦ rw good (
              Ends.bind_total _ _ _ (udp_client_recv (some sock) 5000 64 (pos 2000) s1) _
                (recv-At s1 (rw good at after))
                λ (got, _) s2 heard. elim (Bool-cases (is_neg got)) [
                  | inl bad ↦ rw bad (inr (bad, rw bad at heard))
                  | inr good' ↦ rw good' (elim (Bool-cases (is_pos got)) [
                    | inl some_bytes ↦ rw some_bytes (inl (refl, rw (good', some_bytes) at heard))
                    | inr empty ↦
                        rw empty (send_loop-Follows rounds s2 (rw (good', empty) at heard))
                  ])
                ])
        ]

-- The calls of `send_time`'s loop through a socket of its caller's keep to the protocol of sending,
-- waiting for at most two seconds and sending again only after an empty answer: it returns 0 where
-- the report was answered, and a negative number where sending, limiting the wait or receiving
-- failed; only a failure to limit the wait with `errno` 0 counts as none. When it returns it has sent the report once, and once more for each empty answer. Stopped
-- after any number of rounds, it is ready to send again.
pub send_loop-Delivers :
    ⦃env : Env⦄ (rounds : ℕ) (sock : MySocket) (gw : ℕ) (message : List ℕ) (s : State)
    → Ends
        (λ rc s'.
          (((rc ≡ pos 0) × At sock gw message s.trace answered s')
            ⊎ ((is_neg rc ≡ true) × At sock gw message s.trace failed s'))
          × SentBeyond 1 s.trace s'.trace)
        (At sock gw message s.trace ready)
        (send_loop rounds (some sock) gw message s)
send_loop-Delivers rounds sock gw message s =
    Ends.mono _ _ _ _ (send_loop rounds (some sock) gw message s)
      (send_loop-Follows sock gw message s.trace rounds s here) counted λ s' f. f
  where
    counted :
        (rc : ℤ) (s' : State)
        → ((rc ≡ pos 0) × At sock gw message s.trace answered s')
          ⊎ ((is_neg rc ≡ true) × At sock gw message s.trace failed s')
        → (((rc ≡ pos 0) × At sock gw message s.trace answered s')
            ⊎ ((is_neg rc ≡ true) × At sock gw message s.trace failed s'))
          × SentBeyond 1 s.trace s'.trace
    counted rc s' (inl (e, f)) = (inl (e, f), Follows-SentBeyond s.trace f)
    counted rc s' (inr (e, f)) = (inr (e, f), Follows-SentBeyond s.trace f)
