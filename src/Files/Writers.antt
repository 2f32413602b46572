-- ===== src/Files/Writers.antt =====
-- The loops of `write_chars` and `write_buffer`, files.c, and what they put in a file.
use mathlib.Core.Path.{subst}
use cloning_apps.Base.{
  ◌∙◌, length-take, length-drop, ℕ, ℤ, zero, suc, pos, ◌+◌, ◌-◌, ◌≤◌, ◌<◌, ◌≡◌, refl, true, false,
  List, [], ◌∷◌, ◌++◌, arith, is_zero, is_neg, length, take, drop, replicate, pos_part, ◌==ℤ◌, ltb,
  if◌then◌else◌, Bool-cases, inl, inr, append_assoc, append-nil, sym, ap, not_ltb→le,
}
use cloning_apps.System.{Env, State, Trace, Call, write, event}
use cloning_apps.System.Ends
use cloning_apps.System.Ends.{Ends, Never}
use cloning_apps.Files.{write_chars, write_buffer_loop}

-- What a call has put in the file, of the bytes that it was given.
abbrev pub written : Call → ℤ → List ℕ
written (write fd bytes) n = take (pos_part n) bytes
written _ n = []

-- All that was put in the file.
abbrev pub output : Trace → List ℕ
output [] = []
output (e ∷ t) = output t ++ written e.made e.reply.value

-- What the manual page of `write` says where there is something to write: it fails with a negative
-- number, or it writes at least one byte and at most those that it is given.
pub record WriteCalls (env : Env) : Type 0 where
  pub progress :
      (t : Trace) (fd : ℤ) (bytes : List ℕ) → is_zero (env.answer t (write fd bytes)).value ≡ false
  pub bounded :
      (t : Trace) (fd : ℤ) (bytes : List ℕ)
      → pos_part (env.answer t (write fd bytes)).value ≤ length bytes

-- A code of 0 with all of `bytes` in the file, or an error.
abbrev pub Wrote : List ℕ → Trace → ℤ → State → Type 0
Wrote bytes t rc s' = if is_zero rc then output s'.trace ≡ output t ++ bytes else (is_neg rc ≡ true)

-- The rest of the bytes after the first of them.
Wrote-later :
    (xs ys : List ℕ) (t u : Trace) (rc : ℤ) (s' : State)
    → output u ≡ output t ++ xs
    → Wrote ys u rc s'
    → Wrote (xs ++ ys) t rc s'
Wrote-later xs ys t u rc s' e h = elim (Bool-cases (is_zero rc)) [
  | inl good ↦ rw good ((rw good at h) ∙ ap (λ zs. zs ++ ys) e ∙ append_assoc (output t) xs ys)
  | inr bad ↦ rw bad (rw bad at h)
]

take-drop : (n : ℕ) (xs : List ℕ) → take n xs ++ drop n xs ≡ xs
take-drop zero xs = refl
take-drop (suc n) [] = refl
take-drop (suc n) (x ∷ xs) = ap (λ ys. x ∷ ys) (take-drop n xs)

take-take : (m n : ℕ) (xs : List ℕ) → m ≤ n → take m (take n xs) ≡ take m xs
take-take zero n xs h = refl
take-take (suc m) zero xs h = absurd (omega (arith, h))
take-take (suc m) (suc n) [] h = refl
take-take (suc m) (suc n) (x ∷ xs) h = ap (λ ys. x ∷ ys) (take-take m n xs (omega (arith, h)))

drop_all : (n : ℕ) (xs : List ℕ) → length xs ≤ n → drop n xs ≡ []
drop_all zero [] h = refl
drop_all zero (x ∷ xs) h = absurd (omega (arith, h))
drop_all (suc n) [] h = refl
drop_all (suc n) (x ∷ xs) h = drop_all n xs (omega (arith, h))

drop-drop : (m n : ℕ) (xs : List ℕ) → drop m (drop n xs) ≡ drop (n + m) xs
drop-drop m zero xs = let e : m ≡ 0 + m = omega arith in ap (λ k. drop k xs) e
drop-drop m (suc n) [] = drop_all m [] (omega arith) ∙ sym (drop_all (suc n + m) [] (omega arith))
drop-drop m (suc n) (x ∷ xs) =
    let e : suc (n + m) ≡ suc n + m = omega arith in drop-drop m n xs ∙ ap (λ k. drop k (x ∷ xs)) e

-- A chunk from `offset` on of which `k` bytes were written, and what is left.
split_chunk :
    (k m offset : ℕ) (buf : List ℕ)
    → k ≤ m
    → take k (take m (drop offset buf)) ++ drop (offset + k) buf ≡ drop offset buf
split_chunk k m offset buf h =
    ap (λ xs. xs ++ drop (offset + k) buf) (take-take k m (drop offset buf) h)
    ∙ ap (λ ys. take k (drop offset buf) ++ ys) (sym (drop-drop k offset buf))
    ∙ take-drop k (drop offset buf)

one_char : (v : ℤ) → (v ==ℤ pos 1) ≡ true → take {A = ℕ} (pos_part v) (b'a' ∷ []) ≡ b'a' ∷ []
one_char v e = ground arith

module _ ⦃env : Env⦄ (h : WriteCalls env) (fd : ℤ) where
  -- If each `write` fails with a negative number or makes progress, `write_chars` always returns,
  -- with 0 after as many characters as it was asked for and with a negative number if a write
  -- fails.
  pub write_chars-Wrote :
      (n : ℕ) (s : State) → Ends (Wrote (replicate n b'a') s.trace) Never (write_chars fd n s)
  unfolding write_chars
  write_chars-Wrote zero s = sym (append-nil _)
  write_chars-Wrote (suc n) s =
      Ends.branch (Wrote (replicate (suc n) b'a') s.trace) Never (value ==ℤ pos 1) _ _ _
        (λ one.
          Ends.mono _ _ _ _ (write_chars fd n s1) (write_chars-Wrote n s1)
            (λ rc s'.
              Wrote-later (b'a' ∷ []) (replicate n b'a') s.trace s1.trace rc s'
                (ap (λ xs. output s.trace ++ xs) (one_char value one)))
            (λ s' never. never))
        λ other. ground (arith, h.progress s.trace fd (b'a' ∷ []), h.bounded s.trace fd (b'a' ∷ []))
    where
      value : ℤ
      value = (env.answer s.trace (write fd (b'a' ∷ []))).value

      s1 : State
      s1 = record s {
        trace = event (write fd (b'a' ∷ [])) (env.answer s.trace (write fd (b'a' ∷ []))) ∷ s.trace;
      }

  pub write_buffer_loop-Wrote :
      (fuel : ℕ) (buf : List ℕ) (offset : ℕ) (s : State)
      → offset ≤ length buf
      → length buf < fuel + offset
      → Ends
          (Wrote (drop offset buf) s.trace)
          Never
          (write_buffer_loop fuel fd buf (length buf) offset s)
  unfolding write_buffer_loop
  write_buffer_loop-Wrote zero buf offset s inside enough = omega (arith, inside, enough)
  write_buffer_loop-Wrote (suc fuel) buf offset s inside enough =
      Ends.branch (Wrote (drop offset buf) s.trace) Never (ltb offset (length buf)) _ _ s
        (λ more.
          Ends.branch (Wrote (drop offset buf) s.trace) Never (is_neg value) _ _ s1
            (λ bad. ground arith)
            (λ good.
              Ends.mono _ _ _ _
                (write_buffer_loop fuel fd buf (length buf) (offset + pos_part value) s1)
                (write_buffer_loop-Wrote fuel buf (offset + pos_part value) s1
                  (omega (arith, length-chunk, most)) (ground (arith, h.progress s.trace fd chunk)))
                (λ rc s' w.
                  subst (λ bytes. Wrote bytes s.trace rc s')
                    (split_chunk (pos_part value) (length buf - offset) offset buf
                      (omega (arith, length-chunk, most)))
                    (Wrote-later (take (pos_part value) chunk) (drop (offset + pos_part value) buf)
                      s.trace s1.trace rc s' refl w))
                (λ s' never. never)))
        (λ done.
          rw (drop_all offset buf (not_ltb→le offset (length buf) done)) (sym (append-nil _)))
    where
      chunk : List ℕ
      chunk = take (length buf - offset) (drop offset buf)

      value : ℤ
      value = (env.answer s.trace (write fd chunk)).value

      s1 : State
      s1 = record s {
        trace = event (write fd chunk) (env.answer s.trace (write fd chunk)) ∷ s.trace;
      }

      most : pos_part value ≤ length chunk
      most = h.bounded s.trace fd chunk

      length-chunk : length chunk ≡ length buf - offset
      length-chunk =
          omega (arith, length-take (length buf - offset) (drop offset buf), length-drop offset buf)
