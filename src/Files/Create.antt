-- ===== src/Files/Create.antt =====
-- A file of data as the file server makes it: `create_file_write_data` of files.c with the three
-- ways to write.
use cloning_apps.Base.{
  ℕ, ℤ, pos, ◌+◌, ◌≤◌, ◌<◌, ◌≡◌, ◌⊎◌, true, arith, is_zero, is_neg, length, List, replicate,
  length-append, length-replicate, length-take, le_bytes, if◌then◌else◌, minus_one, ◌==ℤ◌, inl, inr,
  refl, [], ◌++◌, ◌==◌, Bool-cases, ◌∷◌,
}
use mathlib.Core.Path.{subst}
use cloning_apps.Net.{fit}
use cloning_apps.System.{Reply, Env, State, Trace, write, open_file, event, malloc}
use cloning_apps.System.Ends
use cloning_apps.System.Ends.{Ends, Never}
use cloning_apps.Files.{
  WriteType, write_chars_type, write_words_type, write_buffer_type, write_chars, write_buffer,
  write_buffer_loop, write_data, create_file_write_data, word_data,
}
use cloning_apps.Files.Writers.{
  output, WriteCalls, Wrote, write_chars-Wrote, write_buffer_loop-Wrote,
}
use cloning_apps.Files.Words.{write_words-Grew}

-- A write of eight bytes to a file is not cut short.
abbrev pub WholeWords : Env → Type 0
WholeWords env =
    (t : Trace) (fd : ℤ)
    → let v = (env.answer t (write fd (le_bytes 8 word_data))).value in
      (is_neg v ≡ true) ⊎ (v ≡ pos 8)

-- A code of 0 with at least `n` bytes more in the file, or an error.
abbrev pub Created : ℕ → Trace → ℤ → State → Type 0
Created n t rc s' =
    if is_zero rc then length (output t) + n ≤ length (output s'.trace) else (is_neg rc ≡ true)

Wrote-Created :
    (bytes : List ℕ) (n : ℕ) (t : Trace) (rc : ℤ) (s' : State)
    → length bytes ≡ n
    → Wrote bytes t rc s'
    → Created n t rc s'
Wrote-Created bytes n t rc s' e w = elim (Bool-cases (is_zero rc)) [
  | inl good ↦ rw (good, rw good at w, length-append (output t) bytes, e) (omega arith)
  | inr bad ↦ rw bad (rw bad at w)
]

length-fit : (n : ℕ) (xs : List ℕ) → length (fit n xs) ≡ n
unfolding fit
length-fit n xs = omega (
  arith,
  length-take n (xs ++ replicate n 0),
  length-append xs (replicate n 0),
  length-replicate {A = ℕ} n 0,
)

module _ ⦃env : Env⦄ (h : WriteCalls env) (whole : WholeWords env) where
  write_buffer_loop-Created :
      (fuel : ℕ) (fd : ℤ) (buf : List ℕ) (size : ℕ) (s : State)
      → length buf ≡ size
      → size < fuel
      → Ends (Created size s.trace) Never (write_buffer_loop fuel fd buf size 0 s)
  write_buffer_loop-Created fuel fd buf size s e enough =
      subst (λ n. Ends (Created n s.trace) Never (write_buffer_loop fuel fd buf n 0 s)) e
        (Ends.mono (Wrote buf s.trace) Never _ _ (write_buffer_loop fuel fd buf (length buf) 0 s)
          (write_buffer_loop-Wrote h fd fuel buf 0 s (omega arith) (omega arith))
          (λ rc s'. Wrote-Created buf (length buf) s.trace rc s' refl) λ s' n. n)

  write_buffer-Created :
      (fuel : ℕ) (fd : ℤ) (size : ℕ) (s : State)
      → size < fuel
      → Ends (Created size s.trace) Never (write_buffer fuel fd size s)
  unfolding write_buffer
  write_buffer-Created fuel fd size s enough =
      Ends.branch _ _ (got.ptr == 0) _ _ s1 (λ _. refl)
        λ _.
          Ends.bind (Created size s1.trace) Never (Created size s.trace)
            (write_buffer_loop fuel fd (fit size got.bytes) size 0 s1) _
            (write_buffer_loop-Created fuel fd (fit size got.bytes) size s1
              (length-fit size got.bytes) enough)
            λ rc s' c.
              ground (arith, length-append (output s.trace) [], length-append (output s'.trace) [])
    where
      got : Reply
      got = env.answer s.trace (malloc size)

      s1 : State
      s1 = record s { trace = event (malloc size) got ∷ s.trace }

  write_data-Created :
      (fuel : ℕ) (fd : ℤ) (size : ℕ) (wt : WriteType) (s : State)
      → size < fuel
      → Ends (Created size s.trace) Never (write_data fuel fd size wt s)
  unfolding write_data
  write_data-Created fuel fd size write_chars_type s enough =
      Ends.mono (Wrote (replicate size b'a') s.trace) Never _ _ (write_chars fd size s)
        (write_chars-Wrote h fd size s)
        (λ rc s'.
          Wrote-Created (replicate size b'a') size s.trace rc s' (length-replicate size b'a'))
        λ s' n. n
  write_data-Created fuel fd size write_words_type s enough =
      write_words-Grew fd (λ t. whole t fd) size s
  write_data-Created fuel fd size write_buffer_type s enough =
      write_buffer-Created fuel fd size s enough

  -- If each write fails with a negative number or makes progress, and a write of eight bytes is
  -- never cut short, then `create_file_write_data` returns, for each of the three ways to write and
  -- with more rounds than `size`: with 0 after at least `size` bytes were written, or with a
  -- negative number.
  pub create_file_write_data-Created :
      (fuel : ℕ) (filename : List ℕ) (size : ℕ) (wt : WriteType) (s : State)
      → size < fuel
      → Ends (Created size s.trace) Never (create_file_write_data fuel filename size wt s)
  unfolding create_file_write_data
  create_file_write_data-Created fuel filename size wt s enough =
      Ends.branch _ _ (f.value ==ℤ minus_one) _ _ s1 (λ _. refl)
        λ _.
          Ends.bind (Created size s1.trace) Never (Created size s.trace)
            (write_data fuel f.value size wt s1) _
            (write_data-Created fuel f.value size wt s1 enough)
            λ rc s' c.
              ground (arith, length-append (output s.trace) [], length-append (output s'.trace) [])
    where
      f : Reply
      f = env.answer s.trace (open_file filename true)

      s1 : State
      s1 = record s { trace = event (open_file filename true) f ∷ s.trace }
