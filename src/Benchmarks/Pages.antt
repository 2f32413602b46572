-- ===== src/Benchmarks/Pages.antt =====
-- The pages of measure-fork.c: which of its paths give them back.
use Prim.Native.Nat.{bit_and}
use cloning_apps.Base.{
  ℕ, ℤ, ◌+◌, ◌-◌, ◌%◌, ◌^◌, ◌≡◌, ◌==◌, refl, Option, none, some, true, false, ◌≢◌, [], ◌∷◌, arith,
  is_zero, is_neg, if◌then◌else◌, to_u64,
}
use cloning_apps.System.{
  Env, State, Trace, Call, free_pages, munmap, get_page_size, fork, event, Reply, Cmd, pure, ◌>>=◌,
  ◌>>◌,
}
use cloning_apps.System.Ends
use cloning_apps.System.Ends.{Ends, Never}
use cloning_apps.Net.{
  NetMsg, OsServer, default_server_port, tcp_server_start, tcp_server_stop, tcp_server_accept,
  tcp_server_recv_msg, net_msg_cleanup, ensure_buffer, net_msg_init_buffer, mysocket_open,
  set_reuse_addr, bind_port, start_listening,
}
use cloning_apps.Memory.{ensure_page_size, read_clock, mem_touch_pages}
use cloning_apps.Memory.Alloc.{
  os_free_pages, os_free_pages_posix, os_free_pages_unikraft, os_free_pages_minios, is_page_aligned,
}
use cloning_apps.Servers.{stale_server}
use cloning_apps.Servers.Lifetime.{Any}
use cloning_apps.Servers.Contract.{Contract}
use cloning_apps.Benchmarks.{
  LoopEnd, ended, left_by_goto, handle_fork, serve_requests, serve_with_pages,
}
use cloning_apps.Benchmarks.Loop.{EndsBehind, serve_requests-RunsToEnd}
use cloning_apps.Benchmarks.Requests.{Passive, handle_fork-Leaves}
use cloning_apps.Benchmarks.Refines.{forks}

-- How often pages were given back.
abbrev is_release : Call → ℕ
is_release (free_pages _ _) = 1
is_release (munmap _ _) = 1
is_release _ = 0

abbrev pub releases : Trace → ℕ
releases [] = 0
releases (e ∷ t) = is_release e.made + releases t

-- The page size is such that the address is one of a page, at every time.
abbrev pub PageAt : Env → ℕ → Type 0
PageAt env start =
    (t : Trace)
    → (bit_and start ((to_u64 (env.answer t get_page_size).value + 2 ^ 64 - 1) % 2 ^ 64) == 0)
      ≡ true

module _ ⦃env : Env⦄ where
  accept-releases :
      (server : OsServer) (n : ℕ) (s : State)
      → releases s.trace ≡ n
      → Ends
          (λ (rc, m) s'. if is_zero rc then releases s'.trace ≡ n else releases s'.trace ≡ n)
          Never
          (tcp_server_accept server s)
  unfolding tcp_server_accept net_msg_cleanup
  accept-releases server n s e = ground arith

  recv-releases :
      (m : NetMsg) (n : ℕ) (s : State)
      → releases s.trace ≡ n
      → Ends
          (λ (rc, m) s'. if is_neg rc then releases s'.trace ≡ n else releases s'.trace ≡ n)
          Never
          (tcp_server_recv_msg m s)
  unfolding tcp_server_recv_msg ensure_buffer net_msg_init_buffer
  recv-releases m n s e = ground arith

  cleanup-releases :
      (m : NetMsg) (n : ℕ) (s : State)
      → releases s.trace ≡ n
      → Ends (λ _ s'. releases s'.trace ≡ n) Never (net_msg_cleanup m s)
  unfolding net_msg_cleanup
  cleanup-releases m n s e = ground arith

  -- Since `n` releases no pages were given back.
  abbrev released : (server : OsServer) → ℕ → Contract env server
  released server n = record {
    Idle = λ s. releases s.trace ≡ n;
    Ready = λ m s. releases s.trace ≡ n;
    Got = λ m s. releases s.trace ≡ n;
    Spent = λ m s. releases s.trace ≡ n;
    Stopped = λ s. releases s.trace ≡ n;
    accepts = λ s e. accept-releases server n s e;
    receives = λ m s e. recv-releases m n s e;
    cleans = λ m s e. cleanup-releases m n s e;
    got_again = λ m s e. e;
    got_spent = λ m s e. e;
    idle_stopped = λ s e. e;
    ready_stopped = λ m s e. e;
  }

  start-releases :
      (server : OsServer) (port : ℕ) (s : State)
      → Ends
          (λ (rc, server') s'. (server' ≢ none) × (releases s'.trace ≡ releases s.trace))
          Never
          (tcp_server_start (some server) port s)
  unfolding tcp_server_start mysocket_open set_reuse_addr bind_port start_listening
  start-releases server port s = ground arith

  stop-releases :
      (server : OsServer) (s : State)
      → Ends (λ _ s'. releases s'.trace ≡ releases s.trace) Never (tcp_server_stop (some server) s)
  unfolding tcp_server_stop
  stop-releases server s = ground arith

  touch-releases :
      (start pages_num : ℕ) (s : State)
      → Ends
          (λ _ s'. releases s'.trace ≡ releases s.trace)
          Never
          (mem_touch_pages start pages_num false s)
  unfolding mem_touch_pages ensure_page_size read_clock
  touch-releases start pages_num s = ground arith

  free-releases :
      (start pages_num : ℕ) (s : State)
      → PageAt env start
      → Ends
          (λ _ s'. releases s'.trace ≡ releases s.trace + 1)
          Never
          (os_free_pages start pages_num s)
  unfolding os_free_pages os_free_pages_posix os_free_pages_unikraft os_free_pages_minios
      is_page_aligned
  free-releases start pages_num s aligned = ground (arith, aligned s.trace)

  forks-Passive : (server : OsServer) (n : ℕ) → Passive env server (released server n) forks.aside
  forks-Passive server n = record {
    steps = λ made m s aside e. still made (env.answer s.trace made) s.trace aside e;
    stores = λ m s g memory e. e;
  }
    where
      still :
          (made : Call) (r : Reply) (t : Trace)
          → forks.aside made ≡ true
          → releases t ≡ n
          → releases (event made r ∷ t) ≡ n
      still fork r t h e = omega arith
      still made r t h e = ground arith

  -- What follows the loop.
  behind :
      (start pages_num n : ℕ) (server : OsServer) (e : LoopEnd) (s : State)
      → PageAt env start
      → EndsBehind server (released server n) (λ _. ⊥) e s
      → Ends
          (λ _ s'. releases s'.trace ≡ n + 1)
          Any
          ((let rest : Cmd ℤ = elim e [
            | ended rc ↦ tcp_server_stop (some server) >> os_free_pages start pages_num >> pure rc
            | left_by_goto rc ↦ pure rc
          ] in
              rest)
            s)
  behind start pages_num n server (left_by_goto rc) s aligned k = absurd k
  behind start pages_num n server (ended rc) s aligned k =
      Ends.bind_total (λ _ s'. releases s'.trace ≡ n + 1) _ _
        ((tcp_server_stop (some server) >> os_free_pages start pages_num) s) _
        (Ends.bind_total _ _ _ (tcp_server_stop (some server) s) _ (stop-releases server s)
          λ _ s1 e1.
            Ends.mono _ _ _ _ (os_free_pages start pages_num s1)
              (free-releases start pages_num s1 aligned) (λ _ s2 e2. omega arith)
              λ _ no_way. no_way)
        λ _ s2 e2. e2

  freed :
      (start pages_num n : ℕ) (rc : ℤ) (s : State)
      → PageAt env start
      → releases s.trace ≡ n
      → Ends (λ _ s'. releases s'.trace ≡ n + 1) Any ((os_free_pages start pages_num >> pure rc) s)
  freed start pages_num n rc s aligned e =
      Ends.bind_total _ _ _ (os_free_pages start pages_num s) _
        (free-releases start pages_num s aligned) λ _ s1 e1. omega arith

  started :
      (fuel start pages_num n : ℕ) (rc : ℤ) (server : Option OsServer) (s : State)
      → PageAt env start
      → server ≢ none
      → releases s.trace ≡ n
      → Ends
          (λ _ s'. releases s'.trace ≡ n + 1)
          Any
          ((let rest : Cmd ℤ = elim server [
            | none ↦ pure rc
            | some server ↦
                if is_zero rc
                then (do
                  e ← serve_requests fuel server handle_fork
                  elim e [
                    | ended rc ↦
                        tcp_server_stop (some server) >> os_free_pages start pages_num >> pure rc
                    | left_by_goto rc ↦ pure rc
                  ])
                else os_free_pages start pages_num >> pure rc
          ] in
              rest)
            s)
  started fuel start pages_num n rc none s aligned there e = absurd (there refl)
  started fuel start pages_num n rc (some server) s aligned there e =
      Ends.branch _ _ (is_zero rc) _ _ s
        (λ _.
          Ends.bind (EndsBehind server (released server n) (λ _. ⊥)) _ _
            (serve_requests fuel server handle_fork s) _
            (Ends.mono _ _ _ _ (serve_requests fuel server handle_fork s)
              (serve_requests-RunsToEnd server (released server n) (λ _. ⊥) handle_fork
                (handle_fork-Leaves server (released server n) forks.aside (forks-Passive server n)
                  refl)
                fuel s e)
              (λ end s' k. k) λ _ _. tt)
            λ end s' k. behind start pages_num n server end s' aligned k)
        λ _. freed start pages_num n rc s aligned e

  -- Where the first page is at an address of a page, measure-fork.c, from the touch of its pages on,
  -- makes no fault, and whenever it returns it has given pages back exactly once: also when the
  -- touch, the start of the server or a request fails.
  pub serve_with_pages-releases :
      (fuel start pages_num : ℕ) (s : State)
      → PageAt env start
      → Ends
          (λ _ s'. releases s'.trace ≡ releases s.trace + 1)
          Any
          (serve_with_pages fuel start pages_num handle_fork s)
  unfolding serve_with_pages
  serve_with_pages-releases fuel start pages_num s aligned =
      Ends.bind_total _ _ _ (mem_touch_pages start pages_num false s) _
        (touch-releases start pages_num s)
        λ (rc, d) s1 e1.
          Ends.branch _ _ (is_zero rc) _ _ s1
            (λ _.
              Ends.bind_total _ _ _ (tcp_server_start (some stale_server) default_server_port s1) _
                (start-releases stale_server default_server_port s1)
                λ (rc', server) s2 (there, e2).
                  started fuel start pages_num (releases s.trace) rc' server s2 aligned there
                    (omega arith))
            λ _. freed start pages_num (releases s.trace) rc s1 aligned e1
