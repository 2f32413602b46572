-- ===== src/Files/Words.antt =====
-- The loop of `write_words`, files.c.
use cloning_apps.Base.{
  ℕ, ℤ, zero, suc, pos, ◌+◌, ◌≤◌, ◌<◌, ◌≡◌, ◌⊎◌, inl, inr, refl, true, List, ◌∷◌, arith, is_zero,
  is_neg, length, ltb, le_bytes, if◌then◌else◌, ltb→lt, not_ltb→le, length-append, take, ◌==ℤ◌, ap,
}
use cloning_apps.System.{Env, State, Trace, write, event}
use cloning_apps.System.Ends
use cloning_apps.System.Ends.{Ends, Never}
use cloning_apps.Files.{write_words, write_words_loop, word_data}
use cloning_apps.Files.Writers.{output}

length-word : length (take 8 (le_bytes 8 word_data)) ≡ 8
unfolding le_bytes
length-word = refl

module _ ⦃env : Env⦄ (fd : ℤ)
    (whole : (t : Trace)
      → let v = (env.answer t (write fd (le_bytes 8 word_data))).value in
        (is_neg v ≡ true) ⊎ (v ≡ pos 8)) where
  -- A code of 0 with `n` bytes more in the file, or an error.
  abbrev pub Grew : ℕ → Trace → ℤ → State → Type 0
  Grew n t rc s' =
      if is_zero rc then length (output t) + n ≤ length (output s'.trace) else (is_neg rc ≡ true)

  abbrev LoopGrew : ℕ → ℕ → Trace → ℤ → State → Type 0
  LoopGrew size count t rc s' =
      if is_zero rc
      then length (output t) + size ≤ length (output s'.trace) + count
      else (is_neg rc ≡ true)

  write_words_loop-LoopGrew :
      (fuel size count : ℕ) (s : State)
      → 0 < fuel
      → size < fuel + count
      → Ends (LoopGrew size count s.trace) Never (write_words_loop fuel fd size count s)
  unfolding write_words_loop
  write_words_loop-LoopGrew zero size count s some_fuel enough = absurd (omega (arith, some_fuel))
  write_words_loop-LoopGrew (suc fuel) size count s some_fuel enough =
      Ends.branch (LoopGrew size count s.trace) Never (ltb count size) _ _ s
        (λ more. elim (whole s.trace) [
          | inl bad ↦ rw bad (ground (arith, bad))
          | inr good ↦
              rw (ap is_neg good, ap (λ v. v ==ℤ pos 8) good)
                (Ends.mono (LoopGrew size (count + 8) s1.trace) Never (LoopGrew size count s.trace)
                  Never (write_words_loop fuel fd size (count + 8) s1)
                  (write_words_loop-LoopGrew fuel size (count + 8) s1
                    (omega (arith, enough, ltb→lt count size more)) (omega (arith, enough)))
                  (λ rc s' h. ground (arith, eight good)) (λ s' never. never))
        ])
        λ done. omega (arith, not_ltb→le count size done)
    where
      word : List ℕ
      word = le_bytes 8 word_data

      s1 : State
      s1 = record s { trace = event (write fd word) (env.answer s.trace (write fd word)) ∷ s.trace }

      eight :
          (env.answer s.trace (write fd word)).value ≡ pos 8
          → length (output s1.trace) ≡ length (output s.trace) + 8
      eight e = rw (e, length-append (output s.trace), length-word) refl

  -- If each write of eight bytes fails with a negative number or is whole, `write_words` always
  -- returns, with 0 and at least `size` bytes more in the file, or with a negative number.
  pub write_words-Grew :
      (size : ℕ) (s : State) → Ends (Grew size s.trace) Never (write_words fd size s)
  unfolding write_words
  write_words-Grew size s =
      Ends.mono (LoopGrew size 0 s.trace) Never (Grew size s.trace) Never
        (write_words_loop (size + 1) fd size 0 s)
        (write_words_loop-LoopGrew (size + 1) size 0 s (omega arith) (omega arith))
        (λ rc s' h. ground arith) (λ s' never. never)
