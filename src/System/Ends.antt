-- ===== src/System/Ends.antt =====
-- What holds of a run however it ends: `P` of its result and state if it returns, `Q` of the state
-- in which it exits or is stopped for lack of fuel. A run that `Ends` makes no fault.
use cloning_apps.Base.{◌≡◌, refl, Bool, true, false, if◌then◌else◌}
use cloning_apps.System.{State, Run, ok, exited, fault, out_of_fuel, Cmd, and_then}

abbrev pub Ends : {A : Type 0} → (A → State → Type 0) → (State → Type 0) → Run A → Type 0
Ends P Q (ok a s) = P a s
Ends P Q (exited n s) = Q s
Ends P Q (fault s) = ⊥
Ends P Q (out_of_fuel s) = Q s

-- For a run that always returns.
abbrev pub Never : State → Type 0
Never _ = ⊥

module _ {A : Type 0} (P : A → State → Type 0) (Q : State → Type 0) where
  pub bind :
      {B : Type 0} (R : B → State → Type 0) (r : Run A) (k : A → Cmd B)
      → Ends P Q r
      → ((a : A) (s : State) → P a s → Ends R Q (k a s))
      → Ends R Q (and_then r k)
  bind R (ok a s) k p next = next a s p
  bind R (exited n s) k q next = q
  bind R (fault s) k q next = absurd q
  bind R (out_of_fuel s) k q next = q

  pub mono :
      (P' : A → State → Type 0) (Q' : State → Type 0) (r : Run A)
      → Ends P Q r
      → ((a : A) (s : State) → P a s → P' a s)
      → ((s : State) → Q s → Q' s)
      → Ends P' Q' r
  mono P' Q' (ok a s) p f g = f a s p
  mono P' Q' (exited n s) q f g = g s q
  mono P' Q' (fault s) q f g = q
  mono P' Q' (out_of_fuel s) q f g = g s q

  -- A call that always returns, and what follows it.
  pub bind_total :
      {B : Type 0} (R : B → State → Type 0) (r : Run A) (k : A → Cmd B)
      → Ends P Never r
      → ((a : A) (s : State) → P a s → Ends R Q (k a s))
      → Ends R Q (and_then r k)
  bind_total R (ok a s) k p next = next a s p
  bind_total R (exited n s) k q next = absurd q
  bind_total R (fault s) k q next = absurd q
  bind_total R (out_of_fuel s) k q next = absurd q

  pub branch :
      (b : Bool) (m n : Cmd A) (s : State)
      → (b ≡ true → Ends P Q (m s))
      → (b ≡ false → Ends P Q (n s))
      → Ends P Q ((if b then m else n) s)
  branch true m n s f g = f refl
  branch false m n s f g = g refl

  -- Two things that hold of one run.
  pub both :
      (P' : A → State → Type 0) (Q' : State → Type 0) (r : Run A)
      → Ends P Q r
      → Ends P' Q' r
      → Ends (λ a s. P a s × P' a s) (λ s. Q s × Q' s) r
  both P' Q' (ok a s) p p' = (p, p')
  both P' Q' (exited n s) q q' = (q, q')
  both P' Q' (fault s) q q' = q
  both P' Q' (out_of_fuel s) q q' = (q, q')

  -- A call that always returns.
  pub never : (r : Run A) → Ends P Never r → Ends P Q r
  never (ok a s) p = p
  never (exited n s) q = absurd q
  never (fault s) q = q
  never (out_of_fuel s) q = absurd q

-- What holds of a run for every index.
module _ {A I : Type 0} (i : I) (P : I → A → State → Type 0) where
  pub all :
      (Q : I → State → Type 0) (r : Run A)
      → ((j : I) → Ends (P j) (Q j) r)
      → Ends (λ a s. (j : I) → P j a s) (λ s. (j : I) → Q j s) r
  all Q (ok a s) h = h
  all Q (exited n s) h = h
  all Q (fault s) h = h i
  all Q (out_of_fuel s) h = h

  pub all_total :
      (r : Run A) → ((j : I) → Ends (P j) Never r) → Ends (λ a s. (j : I) → P j a s) Never r
  all_total (ok a s) h = h
  all_total (exited n s) h = h i
  all_total (fault s) h = h i
  all_total (out_of_fuel s) h = h i

-- What holds of a run that may also make a fault: `F` of the state in which it does.
abbrev pub EndsOr :
    {A : Type 0} → (State → Type 0) → (A → State → Type 0) → (State → Type 0) → Run A → Type 0
EndsOr F P Q (fault s) = F s
EndsOr F P Q (ok a s) = P a s
EndsOr F P Q (exited n s) = Q s
EndsOr F P Q (out_of_fuel s) = Q s

module _ {A : Type 0} (F : State → Type 0) (P : A → State → Type 0) (Q : State → Type 0) where
  pub bind_or :
      {B : Type 0} (R : B → State → Type 0) (r : Run A) (k : A → Cmd B)
      → EndsOr F P Q r
      → ((a : A) (s : State) → P a s → EndsOr F R Q (k a s))
      → EndsOr F R Q (and_then r k)
  bind_or R (ok a s) k p next = next a s p
  bind_or R (exited n s) k q next = q
  bind_or R (fault s) k f next = f
  bind_or R (out_of_fuel s) k q next = q

  -- A run that makes no fault.
  pub or_fault : (r : Run A) → Ends P Q r → EndsOr F P Q r
  or_fault (ok a s) p = p
  or_fault (exited n s) q = q
  or_fault (fault s) q = absurd q
  or_fault (out_of_fuel s) q = q

  -- A call that always returns, and what follows it.
  pub total_or :
      {B : Type 0} (R : B → State → Type 0) (r : Run A) (k : A → Cmd B)
      → Ends P Never r
      → ((a : A) (s : State) → P a s → EndsOr F R Q (k a s))
      → EndsOr F R Q (and_then r k)
  total_or R (ok a s) k p next = next a s p
  total_or R (exited n s) k q next = absurd q
  total_or R (fault s) k q next = absurd q
  total_or R (out_of_fuel s) k q next = absurd q

  pub branch_or :
      (b : Bool) (m n : Cmd A) (s : State)
      → (b ≡ true → EndsOr F P Q (m s))
      → (b ≡ false → EndsOr F P Q (n s))
      → EndsOr F P Q ((if b then m else n) s)
  branch_or true m n s f g = f refl
  branch_or false m n s f g = g refl
