-- ===== src/Benchmarks/Halting.antt =====
-- That the two benchmarks come to an end on a system that falls silent.
use cloning_apps.Base.{
  ℕ, ℤ, zero, suc, pos, ◌+◌, ◌≤◌, ◌<◌, ◌^◌, ◌≡◌, ◌∷◌, ◌≢◌, List, true, false, Option, none, some,
  arith, is_zero, is_neg, length, codes, has_prefix, refl, if◌then◌else◌, Bool-cases, inl, inr,
}
use cloning_apps.System.{Env, State, Run, Cmd, Timeval, fork, Reply, event, pure, ◌>>=◌, ◌>>◌}
use cloning_apps.System.Halts
use cloning_apps.System.Halts.{Halts, Settles}
use cloning_apps.System.Ends.{Ends, Never}
use cloning_apps.Boot.{os_exit}
use cloning_apps.Net.{
  NetMsg, OsServer, default_server_port, tcp_server_start, tcp_server_stop, net_msg_cleanup,
  tcp_server_recv_msg,
}
use cloning_apps.Memory.{ensure_page_size, read_clock, mem_touch_pages}
use cloning_apps.Memory.Alloc.{
  os_alloc_pages, os_alloc_pages_posix, os_alloc_pages_unikraft, os_alloc_pages_minios,
  os_free_pages, os_free_pages_posix, os_free_pages_unikraft, os_free_pages_minios, is_page_aligned,
}
use cloning_apps.Servers.{stale_server}
use cloning_apps.Servers.Halting.{accepted-Halts, tcp_server_start-Listens, tcp_server_stop-Returns}
use cloning_apps.Servers.Returns.Calls.{Silent, recv-Longer, cleanup-Longer}
use cloning_apps.Benchmarks.{
  Handled, goes_on, stops, goto_out, handle_fork, print_stats, print_duration, touch_again,
  handle_overhead, after_request, serve_requests, LoopEnd, ended, left_by_goto, serve_with_pages,
  allocate_and_serve,
}

module _ ⦃env : Env⦄ where
  -- A request that comes to an end, with no fewer calls made.
  abbrev pub Settled : {A : Type 0} → State → Run A → Type 0
  Settled s = Settles (λ _ s'. length s.trace ≤ length s'.trace)

  abbrev pub HandlerSettles : (ℤ → NetMsg → Cmd Handled) → Type 0
  HandlerSettles handle = (rc : ℤ) (m : NetMsg) (s : State) → Settled s (handle rc m s)

  exit-Settled : (status : ℤ) (s s' : State) → Settled {A = Handled} s (os_exit status s')
  unfolding os_exit
  exit-Settled status s s' = ground arith

  pub handle_fork-Settles : HandlerSettles handle_fork
  unfolding handle_fork os_exit
  handle_fork-Settles rc m s = ground arith

  touch-Halts : (start pages_num : ℕ) (s : State) → Halts (mem_touch_pages start pages_num false s)
  unfolding mem_touch_pages ensure_page_size read_clock
  touch-Halts start pages_num s = ground arith

  free-Halts : (start pages_num : ℕ) (s : State) → Halts (os_free_pages start pages_num s)
  unfolding os_free_pages os_free_pages_posix os_free_pages_unikraft os_free_pages_minios
      is_page_aligned
  free-Halts start pages_num s = ground arith

  page_size-Halts : (s : State) → Halts (ensure_page_size s)
  unfolding ensure_page_size
  page_size-Halts s = ground arith

  alloc-Halts :
      (pages_num : ℕ) (s : State)
      → pages_num < 2 ^ 32
      → 0 < pages_num
      → Halts (os_alloc_pages pages_num s)
  unfolding os_alloc_pages os_alloc_pages_posix os_alloc_pages_unikraft os_alloc_pages_minios
  alloc-Halts pages_num s small some_pages = ground arith

  -- A touch that returns 0 has assigned the duration that it was asked for.
  touch-Settled :
      (start pages_num : ℕ) (s : State)
      → Ends
          (λ (rc, d) s'. (length s.trace ≤ length s'.trace) × (is_zero rc ≡ true → d ≢ none))
          Never
          (mem_touch_pages start pages_num true s)
  unfolding mem_touch_pages ensure_page_size read_clock
  touch-Settled start pages_num s = ground arith

  print_duration-Longer :
      (prefix : List ℕ) (pages_num : ℕ) (d : Option Timeval) (s : State)
      → d ≢ none
      → Ends (λ _ s'. length s.trace ≤ length s'.trace) Never (print_duration prefix pages_num d s)
  unfolding print_stats
  print_duration-Longer prefix pages_num none s there = absurd (there refl)
  print_duration-Longer prefix pages_num (some d) s there = omega arith

  touch_again-Settled :
      (rc : ℤ) (start pages_num : ℕ) (s : State) → Settled s (touch_again rc start pages_num s)
  unfolding touch_again
  touch_again-Settled rc start pages_num s =
      Halts.settled_branch _ s.globals.do_fork _ _ s
        (λ _.
          Halts.settled_branch _ (is_neg child.value) _ _ s1 (λ _. omega arith)
            λ _.
              Halts.settled_branch _ (is_zero child.value) _ _ s1
                (λ _.
                  Halts.settled_bind _ _ (mem_touch_pages start pages_num true s1) _
                    (touch-Settled start pages_num s1)
                    λ (rc', d) s2 (le, there).
                      Halts.settled_branch _ (is_zero rc') _ _ s2
                        (λ good.
                          Halts.settled_bind _ _ (print_duration (codes "child") pages_num d s2) _
                            (print_duration-Longer (codes "child") pages_num d s2 (there good))
                            λ _ s3 le'. exit-Settled (pos 0) s s3)
                        λ _. omega (arith, le))
                λ _. omega arith)
        λ _.
          Halts.settled_bind _ _ (mem_touch_pages start pages_num true s) _
            (touch-Settled start pages_num s)
            λ (rc', d) s2 (le, there).
              Halts.settled_branch _ (is_zero rc') _ _ s2
                (λ good.
                  Halts.settled_bind _ _ (print_duration (codes "parent") pages_num d s2) _
                    (print_duration-Longer (codes "parent") pages_num d s2 (there good))
                    λ _ s3 le'. omega (arith, le, le'))
                λ _. omega (arith, le)
    where
      child : Reply
      child = env.answer s.trace fork

      s1 : State
      s1 = record s { trace = event fork child ∷ s.trace }

  pub handle_overhead-Settles :
      (start pages_num : ℕ) → HandlerSettles (handle_overhead start pages_num)
  unfolding handle_overhead
  handle_overhead-Settles start pages_num rc m s =
      Halts.settled_branch _ (has_prefix (codes "overhead") m.contents) _ _ s
        (λ _. touch_again-Settled rc start pages_num s)
        λ _. (elim (Bool-cases (has_prefix (codes "stop") m.contents)) [
          | inl stop ↦ omega arith
          | inr other ↦ omega arith
        ])

module _ ⦃env : Env⦄ (n : ℕ) (silent : Silent env n) (handle : ℤ → NetMsg → Cmd Handled)
    (settles : HandlerSettles handle) where
  after_request-Halts :
      (rest : Cmd LoopEnd) (h : Handled) (m : NetMsg) (s : State)
      → ((s' : State) → length s.trace ≤ length s'.trace → Halts (rest s'))
      → Halts (after_request h m rest s)
  unfolding after_request
  after_request-Halts rest (goes_on rc) m s others =
      Halts.bind_total _ (net_msg_cleanup m s) _ (cleanup-Longer m s) λ _ s' le. others s' le
  after_request-Halts rest (stops rc) m s others =
      Halts.bind_total _ (net_msg_cleanup m s) _ (cleanup-Longer m s) λ _ _ _. tt
  after_request-Halts rest (goto_out rc) m s others = tt

  serve_requests-Halts :
      (fuel : ℕ) (server : OsServer) (s : State)
      → 0 < fuel
      → n < fuel + length s.trace
      → Halts (serve_requests fuel server handle s)
  unfolding serve_requests
  serve_requests-Halts zero server s some_fuel enough = absurd (omega arith)
  serve_requests-Halts (suc fuel) server s some_fuel enough =
      accepted-Halts n silent _ ended server s λ (rc, m) s1 less longer.
        Halts.bind_total _ (tcp_server_recv_msg m s1) _ (recv-Longer n silent m s1)
          λ (rc', m') s2 (le, _).
            Halts.branch (is_neg rc') _ _ s2
              (λ _. Halts.bind_total _ (net_msg_cleanup m' s2) _ (cleanup-Longer m' s2) λ _ _ _. tt)
              λ _. Halts.bind_settled _ (handle rc' m' s2) _ (settles rc' m' s2) λ h s3 le'.
                after_request-Halts (serve_requests fuel server handle) h m' s3 λ s4 le''.
                  serve_requests-Halts fuel server s4 (omega (arith, enough, less))
                    (omega (arith, enough, longer, le, le', le''))

  -- What follows the loop.
  behind-Halts :
      (start pages_num : ℕ) (server : OsServer) (e : LoopEnd) (s : State)
      → Halts (
          (let rest : Cmd ℤ = elim e [
            | ended rc ↦ tcp_server_stop (some server) >> os_free_pages start pages_num >> pure rc
            | left_by_goto rc ↦ pure rc
          ] in
              rest)
            s)
  behind-Halts start pages_num server (left_by_goto rc) s = tt
  behind-Halts start pages_num server (ended rc) s =
      Halts.bind ((tcp_server_stop (some server) >> os_free_pages start pages_num) s) _
        (Halts.bind_total _ (tcp_server_stop (some server) s) _ (tcp_server_stop-Returns server s)
          λ _ s1 _. free-Halts start pages_num s1)
        λ _ _. tt

  started-Halts :
      (fuel start pages_num : ℕ) (rc : ℤ) (server : Option OsServer) (s : State)
      → n < fuel
      → Halts (
          (let rest : Cmd ℤ = elim server [
            | none ↦ pure rc
            | some server ↦
                if is_zero rc
                then (do
                  e ← serve_requests fuel server handle
                  elim e [
                    | ended rc ↦
                        tcp_server_stop (some server) >> os_free_pages start pages_num >> pure rc
                    | left_by_goto rc ↦ pure rc
                  ])
                else os_free_pages start pages_num >> pure rc
          ] in
              rest)
            s)
  started-Halts fuel start pages_num rc none s enough = tt
  started-Halts fuel start pages_num rc (some server) s enough =
      Halts.branch (is_zero rc) _ _ s
        (λ _.
          Halts.bind (serve_requests fuel server handle s) _
            (serve_requests-Halts fuel server s (omega arith) (omega arith))
            λ e s'. behind-Halts start pages_num server e s')
        λ _. Halts.bind (os_free_pages start pages_num s) _ (free-Halts start pages_num s) λ _ _. tt

  serve_with_pages-Halts :
      (fuel start pages_num : ℕ) (s : State)
      → n < fuel
      → Halts (serve_with_pages fuel start pages_num handle s)
  unfolding serve_with_pages
  serve_with_pages-Halts fuel start pages_num s enough =
      Halts.bind (mem_touch_pages start pages_num false s) _ (touch-Halts start pages_num s)
        λ (rc, d) s1.
          Halts.branch (is_zero rc) _ _ s1
            (λ _.
              Halts.bind_total _ (tcp_server_start (some stale_server) default_server_port s1) _
                (tcp_server_start-Listens stale_server default_server_port s1)
                λ (rc', server) s2 _. started-Halts fuel start pages_num rc' server s2 enough)
            λ _.
              Halts.bind (os_free_pages start pages_num s1) _ (free-Halts start pages_num s1)
                λ _ _. tt

module _ ⦃env : Env⦄ (n : ℕ) (silent : Silent env n) where
  pub allocate_and_serve-Halts :
      (fuel pages_num : ℕ) (handle : ℕ → ℤ → NetMsg → Cmd Handled) (s : State)
      → ((start : ℕ) → HandlerSettles (handle start))
      → pages_num < 2 ^ 32
      → 0 < pages_num
      → n < fuel
      → Halts (allocate_and_serve fuel pages_num handle s)
  unfolding allocate_and_serve
  allocate_and_serve-Halts fuel pages_num handle s settles small some_pages enough =
      Halts.bind (ensure_page_size s) _ (page_size-Halts s) λ _ s1.
        Halts.bind (os_alloc_pages pages_num s1) _ (alloc-Halts pages_num s1 small some_pages)
          λ (rc, start) s2. allocated rc start s2
    where
      allocated :
          (rc : ℤ) (start : Option ℕ) (s2 : State)
          → Halts (
              (let rest : Cmd ℤ = elim start [
                | none ↦ pure rc
                | some start ↦
                    if is_zero rc
                    then serve_with_pages fuel start pages_num (handle start)
                    else pure rc
              ] in
                  rest)
                s2)
      allocated rc none s2 = tt
      allocated rc (some start) s2 =
          Halts.branch (is_zero rc) _ _ s2
            (λ _.
              serve_with_pages-Halts n silent (handle start) (settles start) fuel start pages_num s2
                enough)
            λ _. tt
