-- ===== src/Benchmarks.antt =====
-- The two benchmarks that touch memory on request: measure-fork.c and memory-overhead.c. Of the lines
-- that they print, those with a duration are modelled.
pub mod Loop
pub mod Requests
pub mod Refines
pub mod Stats
pub mod Pages
pub mod Halting
pub mod Threads
use cloning_apps.Base.{
  ℕ, ℤ, zero, suc, pos, true, false, none, some, ◌==◌, if◌then◌else◌, is_neg, is_zero, minus_one,
  codes, has_prefix, Option, List, ◌++◌, ◌+ℤ◌, thousandfold, quotient_1000, remainder_1000, to_u64,
  show_u64, show_u64_3,
}
use cloning_apps.System.{
  Env, Timeval, print_line, fault, fork, Cmd, pure, exited, out_of_fuel, ◌>>=◌, ◌>>◌, call,
  get_globals,
}
use cloning_apps.Net.{
  NetMsg, OsServer, default_server_port, net_msg_cleanup, tcp_server_start, tcp_server_stop,
  tcp_server_accept, tcp_server_recv_msg,
}
use cloning_apps.Memory.{ensure_page_size, mem_touch_pages, memsize_str2pages}
use cloning_apps.Memory.Alloc.{os_alloc_pages, os_free_pages}
use cloning_apps.Boot.{os_exit}
use cloning_apps.Prologue.{server_prologue}
use cloning_apps.Servers.{stale_server}

-- How a request leaves its loop: it goes on or stops with the code `rc`, or jumps to `out`.
pub data Handled : Type 0 where
  goes_on : ℤ → Handled
  stops : ℤ → Handled
  goto_out : ℤ → Handled

-- How a loop ends: behind it, or by the jump to `out`, past the calls that release the resources.
pub data LoopEnd : Type 0 where
  ended : ℤ → LoopEnd
  left_by_goto : ℤ → LoopEnd

-- The line of `print_stats`. A `long` becomes an `unsigned long`.
unfoldable pub stats_line : List ℕ → ℕ → Timeval → List ℕ
stats_line prefix pages_num duration =
    let msec = to_u64 (thousandfold duration.sec +ℤ quotient_1000 duration.usec) in
    let usec = to_u64 (remainder_1000 duration.usec) in
    codes "OVERHEAD_TRACE "
    ++ (prefix
        ++ (codes " pages="
            ++ (show_u64 pages_num
                ++ (codes " duration=" ++ (show_u64 msec ++ (codes "." ++ show_u64_3 usec))))))

module _ ⦃env : Env⦄ where
  -- A request of measure-fork.c, from the test for "fork" on. A child exits at once.
  unfoldable pub handle_fork : ℤ → NetMsg → Cmd Handled
  handle_fork rc msg =
      if has_prefix (codes "fork") msg.contents
      then (do
        r ← call fork
        if is_zero r.value
            then os_exit (pos 0)
            else pure (if is_neg r.value then stops rc else goes_on rc))
      else pure (if has_prefix (codes "stop") msg.contents then stops rc else goes_on rc)

  unfoldable pub print_stats : List ℕ → ℕ → Timeval → Cmd (Unit {0})
  print_stats prefix pages_num duration = do
    call (print_line (stats_line prefix pages_num duration))
    pure tt

  -- `print_stats` of the local variable `duration`, which is `none` if nothing assigned it.
  abbrev pub print_duration : List ℕ → ℕ → Option Timeval → Cmd (Unit {0})
  print_duration prefix pages_num none = fault
  print_duration prefix pages_num (some duration) = print_stats prefix pages_num duration

  -- What memory-overhead.c does for "overhead": in a forked child, or in the process itself.
  unfoldable pub touch_again : ℤ → ℕ → ℕ → Cmd Handled
  touch_again rc start pages_num = do
    g ← get_globals
    if g.do_fork
        then (do
          r ← call fork
          if is_neg r.value
              then pure (goto_out rc)
              else if is_zero r.value
              then (do
                (rc, duration) ← mem_touch_pages start pages_num true
                if is_zero rc
                    then print_duration (codes "child") pages_num duration >> os_exit (pos 0)
                    else pure (goto_out rc))
              else pure (goes_on rc))
        else (do
          (rc, duration) ← mem_touch_pages start pages_num true
          if is_zero rc
              then print_duration (codes "parent") pages_num duration >> pure (goes_on rc)
              else pure (goto_out rc))

  -- A request of memory-overhead.c
  unfoldable pub handle_overhead : ℕ → ℕ → ℤ → NetMsg → Cmd Handled
  handle_overhead start pages_num rc msg =
      if has_prefix (codes "overhead") msg.contents
      then touch_again rc start pages_num
      else pure (if has_prefix (codes "stop") msg.contents then stops rc else goes_on rc)

  -- What both loops do once a request is handled, before the other rounds.
  unfoldable pub after_request : Handled → NetMsg → Cmd LoopEnd → Cmd LoopEnd
  after_request (goes_on rc) msg rest = net_msg_cleanup msg >> rest
  after_request (stops rc) msg rest = net_msg_cleanup msg >> pure (ended rc)
  after_request (goto_out rc) msg rest = pure (left_by_goto rc)

  -- The loop that both programs have, around their requests.
  unfoldable pub serve_requests : ℕ → OsServer → (ℤ → NetMsg → Cmd Handled) → Cmd LoopEnd
  serve_requests zero server handle = out_of_fuel
  serve_requests (suc fuel) server handle = do
    (rc, msg) ← tcp_server_accept server
    if is_zero rc
        then (do
          (rc, msg) ← tcp_server_recv_msg msg
          if is_neg rc
              then net_msg_cleanup msg >> pure (ended rc)
              else (do h ← handle rc msg; after_request h msg (serve_requests fuel server handle)))
        else pure (ended rc)

  -- From the second touch of the pages to the label `out`: `handle` is given the first page and
  -- the number of pages.
  unfoldable pub serve_with_pages : ℕ → ℕ → ℕ → (ℤ → NetMsg → Cmd Handled) → Cmd ℤ
  serve_with_pages fuel start pages_num handle = do
    (rc, _) ← mem_touch_pages start pages_num false
    if is_zero rc
        then (do
          (rc, server) ← tcp_server_start (some stale_server) default_server_port
          elim server [
            | none ↦ pure rc
            | some server ↦
                if is_zero rc
                then (do
                  e ← serve_requests fuel server handle
                  elim e [
                    | ended rc ↦
                        tcp_server_stop (some server) >> os_free_pages start pages_num >> pure rc
                    | left_by_goto rc ↦ pure rc
                  ])
                else os_free_pages start pages_num >> pure rc
          ])
        else os_free_pages start pages_num >> pure rc

  -- The allocation, and what follows it.
  unfoldable pub allocate_and_serve : ℕ → ℕ → (ℕ → ℤ → NetMsg → Cmd Handled) → Cmd ℤ
  allocate_and_serve fuel pages_num handle = do
    ensure_page_size
    (rc, start) ← os_alloc_pages pages_num
    elim start [
      | none ↦ pure rc
      | some start ↦
          if is_zero rc then serve_with_pages fuel start pages_num (handle start) else pure rc
    ]

  unfoldable pub thread_func_measure_fork : ℕ → ℕ → Cmd ℤ
  thread_func_measure_fork rounds fuel = do
    g ← get_globals
    elim g.memory_str [
      | none ↦ pure minus_one
      | some size ↦ do
        pages_num ← memsize_str2pages size
        if pages_num == 0 then pure minus_one else (do
          (rc, _) ← server_prologue rounds
          if is_zero rc then allocate_and_serve fuel pages_num (λ _. handle_fork) else pure rc)
    ]

  unfoldable pub thread_func_memory_overhead : ℕ → Cmd ℤ
  thread_func_memory_overhead fuel = do
    g ← get_globals
    elim g.memory_str [
      | none ↦ pure minus_one
      | some size ↦ do
        pages_num ← memsize_str2pages size
        if pages_num == 0
            then pure minus_one
            else allocate_and_serve fuel pages_num (λ start. handle_overhead start pages_num)
    ]
