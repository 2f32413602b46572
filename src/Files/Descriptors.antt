-- ===== src/Files/Descriptors.antt =====
-- The descriptors of the file server, files.c: the files that it writes.
use cloning_apps.Base.{
  pos_part, take, drop, ◌-◌, ℕ, ℤ, pos, zero, suc, ◌+◌, ◌≤◌, ◌≡◌, ◌∷◌, [], inl, inr, true, arith,
  is_neg, le_bytes, List, ltb, ◌==ℤ◌, ◌==◌, refl, ap, minus_one,
}
use cloning_apps.System.{
  Env, State, Trace, Run, Call, Reply, write, open_file, malloc, asprintf, free, event,
}
use cloning_apps.System.Ends
use cloning_apps.System.Ends.{Ends, Never}
use cloning_apps.System.Ledger.{
  opens, closes, allocs, frees, allocating, freeing, is_fd, is_fd-le, is_ptr,
}
use cloning_apps.Net.{fit}
use cloning_apps.Files.{
  WriteType, write_chars_type, write_words_type, write_buffer_type, write_chars, write_words_loop,
  write_words, write_buffer_loop, write_buffer, write_data, create_file_write_data, word_data,
}
use cloning_apps.Files.Create.{WholeWords}

-- From `t` to `u` the descriptor `fd` was opened `n` times more than it was closed.
abbrev pub Open : ℤ → ℕ → Trace → Trace → Type 0
Open fd n t u = opens fd u + closes fd t ≡ opens fd t + closes fd u + n

-- It was closed at most as often as it was opened, and is open at most `n` times.
abbrev pub OpenAtMost : ℤ → ℕ → Trace → Trace → Type 0
OpenAtMost fd n t u =
    (opens fd t + closes fd u ≤ opens fd u + closes fd t)
    × (opens fd u + closes fd t ≤ opens fd t + closes fd u + n)

-- No call hands out the null pointer as an address of its own.
pub is_ptr-null : (a : ℕ) → is_ptr 0 a ≡ 0
is_ptr-null a = ground arith

allocating-null : (c : Call) (r : Reply) → allocating 0 c r ≡ 0
allocating-null (malloc n) r = is_ptr-null r.ptr
allocating-null (asprintf n) r = is_ptr-null r.ptr
allocating-null _ r = refl

freeing-null : (c : Call) → freeing 0 c ≡ 0
freeing-null (free a) = is_ptr-null a
freeing-null _ = refl

pub allocs-null : (t : Trace) → allocs 0 t ≡ 0
allocs-null [] = refl
allocs-null (e ∷ t) = omega (arith, allocs-null t, allocating-null e.made e.reply)

pub frees-null : (t : Trace) → frees 0 t ≡ 0
frees-null [] = refl
frees-null (e ∷ t) = omega (arith, frees-null t, freeing-null e.made)

module _ ⦃env : Env⦄ (whole : WholeWords env) (fd : ℤ) where
  -- The loop neither opens nor closes a descriptor.
  abbrev Keeps : {A : Type 0} → ℕ → Trace → Run A → Type 0
  Keeps n t = Ends (λ _ s'. Open fd n t s'.trace) (λ s'. Open fd n t s'.trace)

  write_chars-Keeps :
      (file : ℤ) (left n : ℕ) (t : Trace) (s : State)
      → Open fd n t s.trace
      → Keeps n t (write_chars file left s)
  unfolding write_chars
  write_chars-Keeps file zero n t s h = h
  write_chars-Keeps file (suc left) n t s h =
      Ends.branch _ _ (r.value ==ℤ pos 1) _ _ s1
        (λ _. write_chars-Keeps file left n t s1 (omega arith)) λ _. omega arith
    where
      r : Reply
      r = env.answer s.trace (write file (b'a' ∷ []))

      s1 : State
      s1 = record s { trace = event (write file (b'a' ∷ [])) r ∷ s.trace }

  write_words_loop-Keeps :
      (fuel : ℕ) (file : ℤ) (size count n : ℕ) (t : Trace) (s : State)
      → Open fd n t s.trace
      → Keeps n t (write_words_loop fuel file size count s)
  unfolding write_words_loop
  write_words_loop-Keeps zero file size count n t s h = h
  write_words_loop-Keeps (suc fuel) file size count n t s h =
      Ends.branch _ _ (ltb count size) _ _ s
        (λ _. elim (whole s.trace file) [
          | inl bad ↦ rw bad (omega arith)
          | inr good ↦
              rw (ap is_neg good, ap (λ v. v ==ℤ pos 8) good)
                (write_words_loop-Keeps fuel file size (count + 8) n t s1 (omega arith))
        ])
        λ _. h
    where
      c : Call
      c = write file (le_bytes 8 word_data)

      s1 : State
      s1 = record s { trace = event c (env.answer s.trace c) ∷ s.trace }

  write_buffer_loop-Keeps :
      (fuel : ℕ) (file : ℤ) (buf : List ℕ) (size offset n : ℕ) (t : Trace) (s : State)
      → Open fd n t s.trace
      → Keeps n t (write_buffer_loop fuel file buf size offset s)
  unfolding write_buffer_loop
  write_buffer_loop-Keeps zero file buf size offset n t s h = h
  write_buffer_loop-Keeps (suc fuel) file buf size offset n t s h =
      Ends.branch _ _ (ltb offset size) _ _ s
        (λ _.
          Ends.branch _ _ (is_neg r.value) _ _ s1 (λ _. omega arith)
            λ _.
              write_buffer_loop-Keeps fuel file buf size (offset + pos_part r.value) n t s1
                (omega arith))
        λ _. h
    where
      c : Call
      c = write file (take (size - offset) (drop offset buf))

      r : Reply
      r = env.answer s.trace c

      s1 : State
      s1 = record s { trace = event c r ∷ s.trace }

  write_buffer-Keeps :
      (fuel : ℕ) (file : ℤ) (size n : ℕ) (t : Trace) (s : State)
      → Open fd n t s.trace
      → Keeps n t (write_buffer fuel file size s)
  unfolding write_buffer
  write_buffer-Keeps fuel file size n t s h =
      Ends.branch _ _ (got.ptr == 0) _ _ s1 (λ _. omega arith)
        λ _.
          Ends.bind _ _ _ (write_buffer_loop fuel file (fit size got.bytes) size 0 s1) _
            (write_buffer_loop-Keeps fuel file (fit size got.bytes) size 0 n t s1 (omega arith))
            λ rc s' k. Ends.branch _ _ (is_neg rc) _ _ s' (λ _. k) λ _. omega arith
    where
      got : Reply
      got = env.answer s.trace (malloc size)

      s1 : State
      s1 = record s { trace = event (malloc size) got ∷ s.trace }

  write_data-Keeps :
      (fuel : ℕ) (file : ℤ) (size : ℕ) (wt : WriteType) (n : ℕ) (t : Trace) (s : State)
      → Open fd n t s.trace
      → Keeps n t (write_data fuel file size wt s)
  unfolding write_data write_words
  write_data-Keeps fuel file size write_chars_type n t s h = write_chars-Keeps file size n t s h
  write_data-Keeps fuel file size write_words_type n t s h =
      write_words_loop-Keeps (size + 1) file size 0 n t s h
  write_data-Keeps fuel file size write_buffer_type n t s h =
      write_buffer-Keeps fuel file size n t s h

  -- The outcome of a handler with a connection: the connection is still all that is open, and one
  -- file more if it is stopped.
  abbrev pub Handles : {A : Type 0} → ℕ → Trace → Run A → Type 0
  Handles n t =
      Ends (λ _ s'. Open fd n t s'.trace) (λ s'. (k : ℕ) × (k ≤ 1) × Open fd (n + k) t s'.trace)

  pub create_file_write_data-Handles :
      (fuel : ℕ) (filename : List ℕ) (size : ℕ) (wt : WriteType) (n : ℕ) (t : Trace) (s : State)
      → Open fd n t s.trace
      → Handles n t (create_file_write_data fuel filename size wt s)
  unfolding create_file_write_data
  create_file_write_data-Handles fuel filename size wt n t s h =
      Ends.branch _ _ (f.value ==ℤ minus_one) _ _ s1 (λ failed. ground arith)
        λ _.
          Ends.bind _ _ _ (write_data fuel f.value size wt s1) _
            (Ends.mono _ _ (λ _ s'. Open fd (n + is_fd fd f.value) t s'.trace)
              (λ s'. (k : ℕ) × (k ≤ 1) × Open fd (n + k) t s'.trace)
              (write_data fuel f.value size wt s1)
              (write_data-Keeps fuel f.value size wt (n + is_fd fd f.value) t s1 (omega arith))
              (λ _ s' k. k) λ s' k. (is_fd fd f.value, is_fd-le fd 0 f.value, k))
            λ rc s' k. omega arith
    where
      f : Reply
      f = env.answer s.trace (open_file filename true)

      s1 : State
      s1 = record s { trace = event (open_file filename true) f ∷ s.trace }
