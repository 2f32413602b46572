-- ===== src/Tests/Programs.antt =====
-- The theorems on memory, files, threads, options and forks, applied to machines and inputs.
use cloning_apps.Base.{
  ℕ, zero, suc, ◌+◌, ◌*◌, ◌≤◌, ◌≡◌, refl, ◌⊎◌, inl, inr, false, none, List, [], ◌∷◌, ◌++◌, arith,
  length, take, map_c_strings, ℤ, pos, pos_part, is_zero, codes, show_u64,
}
use cloning_apps.Globals.{Globals, initial_globals}
use cloning_apps.System.{Trace, State, ok}
use cloning_apps.System.Ends.{Ends}
use cloning_apps.Net.{MySocket}
use cloning_apps.Prologue.{fork_prologue, clone_prologue}
use cloning_apps.Prologue.Fork.{Outcome, fork_prologue-Outcome}
use cloning_apps.Prologue.Codes.{ToldParent, clone_prologue-ToldParent}
use cloning_apps.Memory.{load_bytes, memsize_str2bytes, mem_touch_pages}
use cloning_apps.Memory.Touch.{mem_touch_pages-ok}
use cloning_apps.Memory.Size.{megabytes, memsize_str2bytes-show}
use cloning_apps.Cmdline.{cmdline_tokenize}
use cloning_apps.Cmdline.Tokens.{words, cmdline_tokenize-words}
use cloning_apps.Files.Writers.{WriteCalls}
use cloning_apps.Threads.{OsThread, thread_func_wrapper, os_thread_wait_minios}
use cloning_apps.Threads.Laws.{os_thread_wait_minios-never}
use cloning_apps.Tests.{taken, calm, calm_unikraft, start}

abbrev socket_5 : MySocket
socket_5 = record { s = pos 5; port = 5000 }

abbrev with_globals : Globals → State
with_globals g = record start { globals = g }

fork_prologue-Outcome_example :
    Outcome ⦃env = calm⦄ 3
      (λ t. refl)
      2
      []
      (fork_prologue ⦃env = calm⦄ 3 socket_5 5000
        (with_globals (record initial_globals { children_num = pos 2 })))
fork_prologue-Outcome_example =
    fork_prologue-Outcome ⦃env = calm⦄ 3 (λ t. refl) socket_5 5000 1
      (with_globals (record initial_globals { children_num = pos 2 })) refl refl

clone_prologue-ToldParent_example :
    ToldParent ⦃env = calm_unikraft⦄ (clone_prologue ⦃env = calm_unikraft⦄ 3 socket_5 5000 start)
clone_prologue-ToldParent_example =
    clone_prologue-ToldParent ⦃env = calm_unikraft⦄ 3 socket_5 5000 start refl

memsize_str2bytes-show_example : memsize_str2bytes (show_u64 64 ++ codes "MB") ≡ 67108864
memsize_str2bytes-show_example = memsize_str2bytes-show 64 megabytes (omega arith)

mem_touch_pages-ok_example :
    (m : ℕ → ℕ) × (mem_touch_pages ⦃env = calm⦄ 65536 3 false
        (with_globals (record initial_globals { os_page_size = 4096 }))
      ≡ ok
          (pos 0, none)
          (record start { globals = record initial_globals { os_page_size = 4096 }; memory = m }))
    × (load_bytes 8 (65536 + 2 * 4096) m ≡ 2)
mem_touch_pages-ok_example =
    mem_touch_pages-ok 65536 4096 (omega arith) ⦃env = calm⦄ 3
      (with_globals (record initial_globals { os_page_size = 4096 })) 2 refl (omega arith)
      (omega arith)

cmdline_tokenize-words_example :
    map_c_strings
      (cmdline_tokenize (codes "-a counter  -t") 15).text
      (cmdline_tokenize (codes "-a counter  -t") 15).argv
    ≡ take 15 (words (codes "-a counter  -t"))
cmdline_tokenize-words_example = cmdline_tokenize-words (codes "-a counter  -t") 15 (ground arith)

-- A file that takes one byte at a time.
abbrev calm_writes : WriteCalls calm
calm_writes = record { progress = progresses; bounded = bounds }
  where
    progresses : (t : Trace) (fd : ℤ) (text : List ℕ) → is_zero (taken text) ≡ false
    progresses t fd [] = refl
    progresses t fd (x ∷ text) = refl

    bounds : (t : Trace) (fd : ℤ) (text : List ℕ) → pos_part (taken text) ≤ length text
    bounds t fd [] = omega arith
    bounds t fd (x ∷ text) = omega arith

abbrev waiting : OsThread
waiting = record { func = 1; arg = 2; result = 0; finished = false }

abbrev seen_waiting : ℕ → OsThread
seen_waiting zero = waiting
seen_waiting (suc i) = thread_func_wrapper (λ f a. f + a) waiting

seen_waiting-only :
    (j : ℕ)
    → (seen_waiting j ≡ waiting) ⊎ (seen_waiting j ≡ thread_func_wrapper (λ f a. f + a) waiting)
seen_waiting-only zero = inl refl
seen_waiting-only (suc j) = inr refl

os_thread_wait_minios-never_example :
    Ends (λ _ _. ⊥) (λ _. Unit {0}) (os_thread_wait_minios ⦃env = calm⦄ 5 seen_waiting 0 start)
os_thread_wait_minios-never_example =
    os_thread_wait_minios-never ⦃env = calm⦄ (λ f a. f + a) waiting seen_waiting 5 0 start refl
      seen_waiting-only
