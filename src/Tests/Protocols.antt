-- ===== src/Tests/Protocols.antt =====
-- The theorems that compare the program with a description of it, applied to machines and inputs.
use cloning_apps.Base.{
  ℕ, ◌+◌, ◌*◌, ◌<◌, ◌≡◌, refl, true, false, List, [], arith, ltb, Bool, length, pos, is_neg, codes,
  if◌then◌else◌, minus_one,
}
use cloning_apps.System.{Env, Trace, Call, Reply, SockAddr, recvfrom}
use cloning_apps.System.Ends.{Ends, Never}
use cloning_apps.Net.{MySocket}
use cloning_apps.Servers.{serve_tcp, serve_udp}
use cloning_apps.Servers.Refines.{Serves, only_receives, serve_tcp-Follows}
use cloning_apps.Servers.Udp.{Announces, NoPortZero}
use cloning_apps.Servers.Udp.Loop.{serve_udp-changes}
use cloning_apps.Benchmarks.{serve_requests, handle_fork, handle_overhead}
use cloning_apps.Benchmarks.Loop.{RunsToEnd}
use cloning_apps.Benchmarks.Refines.{forks, measure_fork-Follows, Left, overhead-Left}
use cloning_apps.Servers.Contract.Protocol.{protocol}
use cloning_apps.System.Ledger.{OwnsOne}
use cloning_apps.Benchmarks.{serve_with_pages}
use cloning_apps.Benchmarks.Pages.{releases, serve_with_pages-releases}
use cloning_apps.Servers.Lifetime.{Any}
use cloning_apps.System.{get_page_size, State, Run, recv, fork}
use cloning_apps.Benchmarks.{LoopEnd, left_by_goto, touch_again, after_request}
use cloning_apps.Net.{tcp_server_accept, tcp_server_recv_msg, ensure_buffer, net_msg_init_buffer}
use cloning_apps.Memory.Alloc.{os_alloc_max_minios}
use cloning_apps.Memory.Largest.{Has, IsLargest, os_alloc_max_minios-IsLargest}
use cloning_apps.Profile.{timespec_diff_nsec, timespec_diff_usec}
use cloning_apps.Profile.Laws.{at, timespec_diff-agree}
use cloning_apps.System.{ok}
use cloning_apps.Globals.{initial_globals}
use cloning_apps.Tests.{nothing, calm, start, listening}
use cloning_apps.Tests.Files.{roomy}

serve_tcp-Follows_example :
    Serves ⦃env = calm⦄ listening only_receives [] (serve_tcp ⦃env = calm⦄ 9 listening start)
serve_tcp-Follows_example = serve_tcp-Follows ⦃env = calm⦄ listening 9 start

-- Every second datagram comes from another client, until receiving fails.
abbrev two_clients : Trace → Call → Reply
two_clients t (recvfrom _ _) = record nothing {
  value = if ltb (length t) 12 then pos 5 else minus_one;
  peer = record { addr = if ltb (length t) 5 then 1 else 2; port = 9000 };
}
two_clients t _ = record nothing { ptr = 4096; peer = record { addr = 1; port = 9000 } }

abbrev udp_clients : Env
udp_clients = record calm { answer = two_clients }

abbrev udp_listener : MySocket
udp_listener = record { s = pos 3; port = 6613 }

abbrev no_client : SockAddr
no_client = record { addr = 77; port = 77 }

no_port_zero : NoPortZero udp_clients
no_port_zero t (recvfrom _ _) = ground arith
no_port_zero t _ = ground arith

serve_udp-changes_example :
    Ends
      (λ rc s'. (is_neg rc ≡ true) × Announces [] s'.trace)
      (λ s'. Announces [] s'.trace)
      (serve_udp ⦃env = udp_clients⦄ 9 udp_listener no_client 0 start)
serve_udp-changes_example =
    serve_udp-changes ⦃env = udp_clients⦄ no_port_zero 9 udp_listener no_client start

-- A client asks for what `text` says, and forks fail.
abbrev asks : List ℕ → Env
asks text = record calm {
  answer = λ t made. elim made [
    | recv _ _ ↦ record nothing { value = pos (length text); bytes = text }
    | fork ↦ record nothing { value = minus_one }
    | other ↦ calm.answer t other
  ];
}

abbrev forking : State
forking = record start { globals = record initial_globals { do_fork = true } }

measure_fork-Follows_example :
    RunsToEnd ⦃env = asks (codes "fork")⦄ listening
      (protocol ⦃env = asks (codes "fork")⦄ listening forks [])
      (λ _. ⊥)
      (serve_requests ⦃env = asks (codes "fork")⦄ 9 listening
        (handle_fork ⦃env = asks (codes "fork")⦄)
        start)
measure_fork-Follows_example = measure_fork-Follows ⦃env = asks (codes "fork")⦄ listening 9 start

-- That client makes memory-overhead.c jump to `out`.
abbrev jumped : Run LoopEnd → Bool
jumped (ok (left_by_goto rc) s) = true
jumped _ = false

overhead_jumps :
    jumped (
      serve_requests ⦃env = asks (codes "overhead")⦄ 9 listening
        (handle_overhead ⦃env = asks (codes "overhead")⦄ 65536 2)
        forking)
    ≡ true
unfolding serve_requests tcp_server_accept tcp_server_recv_msg ensure_buffer net_msg_init_buffer
    handle_overhead touch_again after_request
overhead_jumps = refl

overhead-Left_example :
    Ends
      (Left ⦃env = asks (codes "overhead")⦄ listening [])
      (λ s'. OwnsOne [] s'.trace)
      (serve_requests ⦃env = asks (codes "overhead")⦄ 9 listening
        (handle_overhead ⦃env = asks (codes "overhead")⦄ 65536 2)
        forking)
overhead-Left_example = overhead-Left ⦃env = asks (codes "overhead")⦄ listening 9 65536 2 forking

up_to_order_2 : Has roomy (λ k. k) 3
up_to_order_2 = record { fits = λ t k h. ground arith; full = λ t. refl }

os_alloc_max_minios-IsLargest_example :
    Ends (IsLargest (λ k. k) 3) Never (os_alloc_max_minios ⦃env = roomy⦄ 4 start)
os_alloc_max_minios-IsLargest_example =
    os_alloc_max_minios-IsLargest ⦃env = roomy⦄ 3 4 start up_to_order_2 (omega arith) (omega arith)

timespec_diff-agree_example :
    let usec = timespec_diff_usec (at 5 999999999) (at 7 1) in
    (timespec_diff_nsec (at 5 999999999) (at 7 1) ≡ pos 1000000002)
    × (1000000002 < usec * 1000 + 1000)
    × (usec * 1000 < 1000000002 + 1000)
timespec_diff-agree_example =
    timespec_diff-agree 5 999999999 7 1 1000000002 (omega arith) (omega arith) (omega arith)
      (omega arith) (omega arith)

-- A client asks for a fork, on a machine with pages of 4096 bytes.
abbrev paged : Env
paged = record (asks (codes "fork")) {
  answer = λ t made. elim made [
    | get_page_size ↦ record nothing { value = pos 4096 }
    | other ↦ (asks (codes "fork")).answer t other
  ];
}

serve_with_pages-releases_example :
    Ends
      (λ _ s'. releases s'.trace ≡ 0 + 1)
      Any
      (serve_with_pages ⦃env = paged⦄ 9 65536 2 (handle_fork ⦃env = paged⦄) start)
serve_with_pages-releases_example =
    serve_with_pages-releases ⦃env = paged⦄ 9 65536 2 start (λ t. refl)
