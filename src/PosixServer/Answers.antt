-- ===== src/PosixServer/Answers.antt =====
-- Whom posix-server.c answers.
use cloning_apps.Base.{
  ℕ, ℤ, zero, suc, ◌≡◌, ◌<◌, true, false, lt→ltb, pos_part, is_neg, codes, refl, List, [], ◌∷◌,
  ◌++◌, ap, Bool-cases, inl, inr, bytes_eq, if◌then◌else◌,
}
use cloning_apps.System.{
  Env, State, Trace, Call, Reply, SockAddr, dgram, socket, bind, recvfrom, sendto, event,
}
use cloning_apps.System.Ends
use cloning_apps.System.Ends.{Ends}
use cloning_apps.PosixServer.{acknowledge, posix_server, max_line, server_port}

-- The sender of a datagram that came, and the address that an acknowledgement goes to.
abbrev sender : Call → Reply → List SockAddr
sender (recvfrom _ _) r = if is_neg r.value then [] else r.peer ∷ []
sender _ r = []

abbrev answered : Call → List SockAddr
answered (sendto _ to bytes) = if bytes_eq bytes (codes "ACK") then to ∷ [] else []
answered _ = []

-- All of them, newest first.
abbrev pub senders : Trace → List SockAddr
senders [] = []
senders (e ∷ t) = sender e.made e.reply ++ senders t

abbrev pub acknowledged : Trace → List SockAddr
acknowledged [] = []
acknowledged (e ∷ t) = answered e.made ++ acknowledged t

-- Every datagram was acknowledged, to its sender, in their order.
abbrev pub AllAnswered : State → Type 0
AllAnswered s' = senders s'.trace ≡ acknowledged s'.trace

-- Every datagram is shorter than the buffer of 1024 bytes.
abbrev pub ShortDatagrams : Env → Type 0
ShortDatagrams env =
    (t : Trace) (d : ℤ) → pos_part (env.answer t (recvfrom d max_line)).value < max_line

module _ ⦃env : Env⦄ (short : ShortDatagrams env) where
  acknowledge-AllAnswered :
      (fuel : ℕ) (sockfd : ℤ) (s : State)
      → AllAnswered s
      → Ends (λ rc s'. (is_neg rc ≡ true) × AllAnswered s') AllAnswered (acknowledge fuel sockfd s)
  unfolding acknowledge
  acknowledge-AllAnswered zero sockfd s all = all
  acknowledge-AllAnswered (suc fuel) sockfd s all = elim (Bool-cases (is_neg r.value)) [
    | inl failed ↦ rw failed (refl, rw failed all)
    | inr came ↦
        rw (came, lt→ltb (pos_part r.value) max_line (short s.trace sockfd))
          (Ends.branch _ _ (is_neg (env.answer t answer).value) _ _ s2 (λ _. (refl, all2 came))
            λ _. acknowledge-AllAnswered fuel sockfd s2 (all2 came))
  ]
    where
      r : Reply
      r = env.answer s.trace (recvfrom sockfd max_line)

      t : Trace
      t = event (recvfrom sockfd max_line) r ∷ s.trace

      answer : Call
      answer = sendto sockfd r.peer (codes "ACK")

      s2 : State
      s2 = record s { trace = event answer (env.answer t answer) ∷ t }

      all2 : is_neg r.value ≡ false → AllAnswered s2
      all2 came = rw came (ap (λ xs. r.peer ∷ xs) all)

  -- If every datagram is shorter than the buffer of 1024 bytes, posix-server.c, started where every
  -- earlier datagram was acknowledged, makes no fault and returns a negative number if it returns.
  -- When it returns, and when it is stopped after any number of rounds, it has called `sendto` with
  -- an acknowledgement just once for each datagram that came, to its sender and in their order.
  pub posix_server-AllAnswered :
      (fuel : ℕ) (s : State)
      → AllAnswered s
      → Ends (λ rc s'. (is_neg rc ≡ true) × AllAnswered s') AllAnswered (posix_server fuel s)
  unfolding posix_server
  posix_server-AllAnswered fuel s all = elim (Bool-cases (is_neg r.value)) [
    | inl failed ↦ rw failed (refl, all)
    | inr opened ↦ rw opened (elim (Bool-cases (is_neg b.value)) [
      | inl failed ↦ rw failed (failed, all)
      | inr bound ↦ rw bound (acknowledge-AllAnswered fuel r.value s2 all)
    ])
  ]
    where
      r : Reply
      r = env.answer s.trace (socket dgram)

      t : Trace
      t = event (socket dgram) r ∷ s.trace

      binding : Call
      binding = bind r.value (record { addr = 0; port = server_port })

      b : Reply
      b = env.answer t binding

      s2 : State
      s2 = record s { trace = event binding b ∷ t }
