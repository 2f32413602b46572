-- ===== src/Benchmarks/Threads.antt =====
-- The two benchmarks from their start, where they read the size of the memory to touch.
use cloning_apps.Base.{
  ℕ, ℤ, pos, minus_one, if◌then◌else◌, ◌<◌, ◌^◌, ◌≡◌, ◌==◌, List, Option, none, some, arith,
  is_zero,
}
use cloning_apps.System.{Env, State, Trace, get_page_size, Cmd, pure, ◌>>=◌}
use cloning_apps.System.Halts
use cloning_apps.System.Halts.{Halts}
use cloning_apps.System.Ends
use cloning_apps.System.Ends.{Ends, Never}
use cloning_apps.Memory.{ensure_page_size, memsize_str2bytes, memsize_str2pages, div_round_up}
use cloning_apps.Prologue.{server_prologue}
use cloning_apps.Prologue.Halting.{server_prologue-Halts}
use cloning_apps.Servers.Returns.Calls.{Silent}
use cloning_apps.Benchmarks.{
  handle_fork, handle_overhead, thread_func_measure_fork, thread_func_memory_overhead,
}
use cloning_apps.Benchmarks.Halting.{
  handle_fork-Settles, handle_overhead-Settles, allocate_and_serve-Halts,
}

-- `os_get_page_size` says 4096.
abbrev pub PageSize : Env → Type 0
PageSize env = (t : Trace) → (env.answer t get_page_size).value ≡ pos 4096

-- The memory asked for is less than 2^43 bytes, if any is.
abbrev pub SmallMemory : Option (List ℕ) → Type 0
SmallMemory none = Unit
SmallMemory (some size) = memsize_str2bytes size < 2 ^ 43

module _ ⦃env : Env⦄ (n : ℕ) (silent : Silent env n) (page_size : PageSize env) (rounds fuel : ℕ)
    (enough_rounds : n < rounds) (enough : n < fuel) where
  memsize_str2pages-Small :
      (size : List ℕ) (s : State)
      → memsize_str2bytes size < 2 ^ 43
      → s.globals.os_page_size ≡ 0
      → Ends (λ pages _. pages < 2 ^ 32) Never (memsize_str2pages size s)
  unfolding memsize_str2pages ensure_page_size div_round_up
  memsize_str2pages-Small size s small unknown =
      Ends.branch _ _ (memsize_str2bytes size == 0) _ _ s (λ _. omega arith)
        λ _. rw (unknown, page_size s.trace) (ground arith)

  -- What the two threads do with the memory string.
  sized-Halts :
      (memory_str : Option (List ℕ)) (s : State) (serve : ℕ → Cmd ℤ)
      → SmallMemory memory_str
      → s.globals.os_page_size ≡ 0
      → ((pages_num : ℕ) (s' : State)
          → 0 < pages_num
          → pages_num < 2 ^ 32
          → Halts (serve pages_num s'))
      → Halts (
          (let run : Cmd ℤ = elim memory_str [
            | none ↦ pure minus_one
            | some size ↦ do
              pages_num ← memsize_str2pages size
              if pages_num == 0 then pure minus_one else serve pages_num
          ] in
              run)
            s)
  sized-Halts none s serve small unknown one = tt
  sized-Halts (some size) s serve small unknown one =
      Halts.bind_total _ (memsize_str2pages size s) _ (memsize_str2pages-Small size s small unknown)
        λ pages_num s1 below.
          Halts.branch (pages_num == 0) _ _ s1 (λ _. tt)
            λ some_pages. one pages_num s1 (ground arith) below

  pub thread_func_memory_overhead-Halts :
      (s : State)
      → SmallMemory s.globals.memory_str
      → s.globals.os_page_size ≡ 0
      → Halts (thread_func_memory_overhead fuel s)
  unfolding thread_func_memory_overhead
  thread_func_memory_overhead-Halts s small unknown =
      sized-Halts s.globals.memory_str s _ small unknown λ pages_num s1 some_pages below.
        allocate_and_serve-Halts n silent fuel pages_num (λ start. handle_overhead start pages_num)
          s1 (λ start. handle_overhead-Settles start pages_num) below some_pages enough

  pub thread_func_measure_fork-Halts :
      (s : State)
      → SmallMemory s.globals.memory_str
      → s.globals.os_page_size ≡ 0
      → Halts (thread_func_measure_fork rounds fuel s)
  unfolding thread_func_measure_fork
  thread_func_measure_fork-Halts s small unknown =
      sized-Halts s.globals.memory_str s _ small unknown λ pages_num s1 some_pages below.
        Halts.bind (server_prologue rounds s1) _
          (server_prologue-Halts n silent rounds enough_rounds s1)
          λ (rc, _) s2.
            Halts.branch (is_zero rc) _ _ s2
              (λ _.
                allocate_and_serve-Halts n silent fuel pages_num (λ _. handle_fork) s2
                  (λ _. handle_fork-Settles) below some_pages enough)
              λ _. tt
