-- ===== src/System/Halts.antt =====
-- Runs that come to an end: they return or exit, make no fault and do not use up their rounds.
use cloning_apps.Base.{◌≡◌, refl, Bool, true, false, if◌then◌else◌}
use cloning_apps.System.{State, Run, ok, exited, fault, out_of_fuel, Cmd, and_then}
use cloning_apps.System.Ends.{Ends, Never}

abbrev pub Halts : {A : Type 0} → Run A → Type 0
Halts (ok a s) = Unit
Halts (exited n s) = Unit
Halts (fault s) = ⊥
Halts (out_of_fuel s) = ⊥

module _ {A : Type 0} where
  pub bind :
      {B : Type 0} (r : Run A) (k : A → Cmd B)
      → Halts r
      → ((a : A) (s : State) → Halts (k a s))
      → Halts (and_then r k)
  bind (ok a s) k h next = next a s
  bind (exited n s) k h next = h
  bind (fault s) k h next = h
  bind (out_of_fuel s) k h next = h

  -- The same, where something is known of what is returned.
  pub bind_total :
      {B : Type 0} (P : A → State → Type 0) (r : Run A) (k : A → Cmd B)
      → Ends P Never r
      → ((a : A) (s : State) → P a s → Halts (k a s))
      → Halts (and_then r k)
  bind_total P (ok a s) k p next = next a s p
  bind_total P (exited n s) k q next = absurd q
  bind_total P (fault s) k q next = absurd q
  bind_total P (out_of_fuel s) k q next = absurd q

  pub branch :
      (b : Bool) (m n : Cmd A) (s : State)
      → (b ≡ true → Halts (m s))
      → (b ≡ false → Halts (n s))
      → Halts ((if b then m else n) s)
  branch true m n s f g = f refl
  branch false m n s f g = g refl

  -- A run that always returns.
  pub of_Ends : (P : A → State → Type 0) (r : Run A) → Ends P Never r → Halts r
  of_Ends P (ok a s) p = tt
  of_Ends P (exited n s) q = absurd q
  of_Ends P (fault s) q = q
  of_Ends P (out_of_fuel s) q = q

-- The same, with what holds of the result and the state of a run that returns.
abbrev pub Settles : {A : Type 0} → (A → State → Type 0) → Run A → Type 0
Settles P (ok a s) = P a s
Settles P (exited n s) = Unit
Settles P (fault s) = ⊥
Settles P (out_of_fuel s) = ⊥

module _ {A : Type 0} (P : A → State → Type 0) where
  pub bind_settled :
      {B : Type 0} (r : Run A) (k : A → Cmd B)
      → Settles P r
      → ((a : A) (s : State) → P a s → Halts (k a s))
      → Halts (and_then r k)
  bind_settled (ok a s) k p next = next a s p
  bind_settled (exited n s) k h next = h
  bind_settled (fault s) k h next = h
  bind_settled (out_of_fuel s) k h next = h

  pub settled_bind :
      {B : Type 0} (Q : B → State → Type 0) (r : Run B) (k : B → Cmd A)
      → Ends Q Never r
      → ((b : B) (s : State) → Q b s → Settles P (k b s))
      → Settles P (and_then r k)
  settled_bind Q (ok b s) k q next = next b s q
  settled_bind Q (exited n s) k q next = absurd q
  settled_bind Q (fault s) k q next = absurd q
  settled_bind Q (out_of_fuel s) k q next = absurd q

  pub settled_branch :
      (b : Bool) (m n : Cmd A) (s : State)
      → (b ≡ true → Settles P (m s))
      → (b ≡ false → Settles P (n s))
      → Settles P ((if b then m else n) s)
  settled_branch true m n s f g = f refl
  settled_branch false m n s f g = g refl
