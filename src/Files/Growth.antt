-- ===== src/Files/Growth.antt =====
-- That the file operations of files.c only add calls, which the proof that the server comes to an
-- end counts.
use cloning_apps.Base.{
  ℕ, ℤ, zero, suc, pos, ◌+◌, ◌-◌, ◌*◌, ◌≤◌, ◌<◌, ◌∷◌, [], true, ap, arith, is_neg, length, List,
  ◌==◌, ◌==ℤ◌, ltb, inl, inr, take, drop, pos_part, le_bytes, Option, none, some, codes, has_prefix,
  minus_one,
}
use cloning_apps.System.{Env, State, Trace, Reply, Call, Run, event, write, malloc, open_file}
use cloning_apps.System.Ends
use cloning_apps.System.Ends.{Ends, Never}
use cloning_apps.Net.{NetMsg, fit}
use cloning_apps.Files.{
  WriteType, write_chars_type, write_words_type, write_buffer_type, write_chars, write_words_loop,
  write_words, write_buffer_loop, write_buffer, write_data, create_file_write_data, word_data,
  write_request, handle_request, str_to_write_type,
}
use cloning_apps.Files.Writers.{WriteCalls}
use cloning_apps.Files.Create.{WholeWords, create_file_write_data-Created}

abbrev Grows : {A : Type 0} → Trace → Run A → Type 0
Grows t = Ends (λ _ s'. length t ≤ length s'.trace) (λ _. Unit)

module _ ⦃env : Env⦄ (whole : WholeWords env) where
  write_chars-Grows :
      (fd : ℤ) (left : ℕ) (t : Trace) (s : State)
      → length t ≤ length s.trace
      → Grows t (write_chars fd left s)
  unfolding write_chars
  write_chars-Grows fd zero t s le = le
  write_chars-Grows fd (suc left) t s le =
      Ends.branch _ _ (r.value ==ℤ pos 1) _ _ s1 (λ _. write_chars-Grows fd left t s1 (omega arith))
        λ _. omega arith
    where
      r : Reply
      r = env.answer s.trace (write fd (b'a' ∷ []))

      s1 : State
      s1 = record s { trace = event (write fd (b'a' ∷ [])) r ∷ s.trace }

  write_words_loop-Grows :
      (fuel : ℕ) (fd : ℤ) (size count : ℕ) (t : Trace) (s : State)
      → length t ≤ length s.trace
      → Grows t (write_words_loop fuel fd size count s)
  unfolding write_words_loop
  write_words_loop-Grows zero fd size count t s le = tt
  write_words_loop-Grows (suc fuel) fd size count t s le =
      Ends.branch _ _ (ltb count size) _ _ s
        (λ _. elim (whole s.trace fd) [
          | inl bad ↦ rw bad (omega arith)
          | inr good ↦
              rw (ap is_neg good, ap (λ v. v ==ℤ pos 8) good)
                (write_words_loop-Grows fuel fd size (count + 8) t s1 (omega arith))
        ])
        λ _. le
    where
      c : Call
      c = write fd (le_bytes 8 word_data)

      s1 : State
      s1 = record s { trace = event c (env.answer s.trace c) ∷ s.trace }

  write_buffer_loop-Grows :
      (fuel : ℕ) (fd : ℤ) (buf : List ℕ) (size offset : ℕ) (t : Trace) (s : State)
      → length t ≤ length s.trace
      → Grows t (write_buffer_loop fuel fd buf size offset s)
  unfolding write_buffer_loop
  write_buffer_loop-Grows zero fd buf size offset t s le = tt
  write_buffer_loop-Grows (suc fuel) fd buf size offset t s le =
      Ends.branch _ _ (ltb offset size) _ _ s
        (λ _.
          Ends.branch _ _ (is_neg r.value) _ _ s1 (λ _. omega arith)
            λ _.
              write_buffer_loop-Grows fuel fd buf size (offset + pos_part r.value) t s1
                (omega arith))
        λ _. le
    where
      c : Call
      c = write fd (take (size - offset) (drop offset buf))

      r : Reply
      r = env.answer s.trace c

      s1 : State
      s1 = record s { trace = event c r ∷ s.trace }

  write_buffer-Grows :
      (fuel : ℕ) (fd : ℤ) (size : ℕ) (t : Trace) (s : State)
      → length t ≤ length s.trace
      → Grows t (write_buffer fuel fd size s)
  unfolding write_buffer
  write_buffer-Grows fuel fd size t s le =
      Ends.branch _ _ (got.ptr == 0) _ _ s1 (λ _. omega arith)
        λ _.
          Ends.bind _ _ _ (write_buffer_loop fuel fd (fit size got.bytes) size 0 s1) _
            (write_buffer_loop-Grows fuel fd (fit size got.bytes) size 0 t s1 (omega arith))
            λ rc s' le'. Ends.branch _ _ (is_neg rc) _ _ s' (λ _. le') λ _. omega arith
    where
      got : Reply
      got = env.answer s.trace (malloc size)

      s1 : State
      s1 = record s { trace = event (malloc size) got ∷ s.trace }

  write_data-Grows :
      (fuel : ℕ) (fd : ℤ) (size : ℕ) (wt : WriteType) (t : Trace) (s : State)
      → length t ≤ length s.trace
      → Grows t (write_data fuel fd size wt s)
  unfolding write_data write_words
  write_data-Grows fuel fd size write_chars_type t s le = write_chars-Grows fd size t s le
  write_data-Grows fuel fd size write_words_type t s le =
      write_words_loop-Grows (size + 1) fd size 0 t s le
  write_data-Grows fuel fd size write_buffer_type t s le = write_buffer-Grows fuel fd size t s le

  create_file_write_data-Grows :
      (fuel : ℕ) (filename : List ℕ) (size : ℕ) (wt : WriteType) (s : State)
      → Grows s.trace (create_file_write_data fuel filename size wt s)
  unfolding create_file_write_data
  create_file_write_data-Grows fuel filename size wt s =
      Ends.branch _ _ (f.value ==ℤ minus_one) _ _ s1 (λ _. omega arith)
        λ _.
          Ends.bind _ _ _ (write_data fuel f.value size wt s1) _
            (write_data-Grows fuel f.value size wt s.trace s1 (omega arith)) λ rc s' le. omega arith
    where
      f : Reply
      f = env.answer s.trace (open_file filename true)

      s1 : State
      s1 = record s { trace = event (open_file filename true) f ∷ s.trace }

module _ ⦃env : Env⦄ (h : WriteCalls env) (whole : WholeWords env) where
  -- Four mebibytes.
  abbrev pub request_size : ℕ
  request_size = 4194304

  -- A request comes to an end, with no fewer calls made.
  pub handle_request-Grows :
      (fuel : ℕ) (rc : ℤ) (msg : NetMsg) (s : State)
      → request_size < fuel
      → Ends (λ _ s'. length s.trace ≤ length s'.trace) Never (handle_request fuel rc msg s)
  unfolding handle_request write_request
  handle_request-Grows fuel rc msg s enough =
      Ends.branch _ _ (has_prefix (codes "stop") msg.contents) _ _ s (λ _. omega arith)
        λ _. requested (str_to_write_type msg.contents)
    where
      requested :
          (w : Option WriteType)
          → Ends (λ _ s'. length s.trace ≤ length s'.trace) Never (write_request fuel w s)
      requested none = omega arith
      requested (some wt) =
          let create = create_file_write_data fuel (codes "/root/data") (4 * 1024 * 1024) wt s in
          Ends.bind_total _ _ _ create _
            (Ends.mono _ _ _ Never create
              (Ends.both _ _ _ _ create
                (create_file_write_data-Created h whole fuel (codes "/root/data") (4 * 1024 * 1024)
                  wt s enough)
                (create_file_write_data-Grows whole fuel (codes "/root/data") (4 * 1024 * 1024) wt
                  s))
              (λ _ _ both. both.1) λ _ never. never.0)
            λ rc' s' le. le
