-- ===== src/PosixServer/Laws.antt =====
-- The receive buffer of posix-server.c.
use cloning_apps.Base.{
  ℕ, ℤ, zero, suc, pos, ◌≡◌, ◌<◌, lt→ltb, pos_part, is_neg, codes, minus_one, refl, ◌∷◌,
}
use cloning_apps.System.{Env, State, Run, Trace, fault, recvfrom, sendto, event}
use cloning_apps.System.Ends
use cloning_apps.System.Ends.{Ends}
use cloning_apps.PosixServer.{acknowledge, max_line}

-- The run made a fault.
abbrev pub Faulty : {A : Type 0} → Run A → Type 0
Faulty (fault s) = Unit
Faulty _ = ⊥

module _ ⦃env : Env⦄ where
  abbrev Failed : ℤ → State → Type 0
  Failed rc _ = rc ≡ minus_one

  abbrev Any : State → Type 0
  Any _ = Unit {0}

  -- If every datagram is shorter than the buffer of 1024 bytes, the loop of the server never writes
  -- outside the buffer, however long it runs, and if it ends then with -1.
  pub acknowledge-safe :
      (fuel : ℕ) (sockfd : ℤ) (s : State)
      → ((t : Trace) → pos_part (env.answer t (recvfrom sockfd max_line)).value < max_line)
      → Ends (λ rc _. rc ≡ minus_one) (λ _. Unit {0}) (acknowledge fuel sockfd s)
  unfolding acknowledge
  acknowledge-safe zero sockfd s h = tt
  acknowledge-safe (suc fuel) sockfd s h =
      let r = env.answer s.trace (recvfrom sockfd max_line) in
      let t = event (recvfrom sockfd max_line) r ∷ s.trace in
      rw (lt→ltb (pos_part r.value) max_line (h s.trace)) (
        Ends.branch Failed Any (is_neg r.value) _ _ _ (λ _. refl)
          λ _.
            Ends.branch Failed Any
              (is_neg (env.answer t (sendto sockfd r.peer (codes "ACK"))).value) _ _ _ (λ _. refl)
              λ _. acknowledge-safe fuel sockfd _ h)

  -- A datagram that fills the buffer makes it write the terminating NUL behind the buffer.
  pub acknowledge-overflow :
      (fuel : ℕ) (sockfd : ℤ) (s : State)
      → (env.answer s.trace (recvfrom sockfd max_line)).value ≡ pos max_line
      → Faulty (acknowledge (suc fuel) sockfd s)
  unfolding acknowledge
  acknowledge-overflow fuel sockfd s full = rw full tt
