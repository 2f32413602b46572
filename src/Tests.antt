-- ===== src/Tests.antt =====
-- Machines for the tests: answers for the calls that the program makes.
mod Servers
mod Network
mod Programs
mod Protocols
mod Prologue
mod CommandLines
mod Halting
mod Files
use cloning_apps.Base.{
  ℕ, zero, suc, ◌+◌, ◌-◌, ◌*◌, ◌/◌, ◌%◌, ◌^◌, ◌≤◌, ◌<◌, ◌≡◌, refl, sym, ap, ap₂, ◌∙◌, ◌≢◌, ◌⊎◌, inl,
  inr, Bool, true, false, not, ◌&&◌, ◌||◌, Option, none, some, List, [], ◌∷◌, ◌++◌, append_assoc,
  append-nil, String, arith, ltb, leb, ◌==◌, if◌then◌else◌, ltb→lt, not_ltb→le, lt→ltb, le→not_ltb,
  eq→==, ==→eq, Bool-cases, length, take, drop, get_elem?, replicate, length-append, length-take,
  length-drop, length-replicate, bytes_eq, has_prefix, c_string, map_c_strings, ℤ, pos, negsuc,
  pos_part, neg_part, sub_ℕ, ◌+ℤ◌, ◌-ℤ◌, is_neg, is_zero, is_pos, ◌==ℤ◌, to_u64, to_u32,
  quotient_1000, remainder_1000, thousandfold, to_i32, minus_one, minus_einval, minus_enomem,
  minus_enodev, codes, digits, show_u64, show_u64_6, show_int, le_bytes, from_le_bytes,
  length-le_bytes, from_le_bytes-le_bytes4, length-digits_le,
}
use cloning_apps.Globals.{App, Globals, initial_globals, app_counter}
use cloning_apps.System.{
  Platform, posix, unikraft, minios, SockType, stream, dgram, SockAddr, Timeval, Timespec, Call,
  socket, reuse_addr, recv_timeout, recv_timeout_ms, bind, listen, accept, getpeername, recv, send,
  recvfrom, sendto, close, malloc, free, gettimeofday, clock_gettime, monotonic_clock, inet_aton,
  netdev_get, netdev_gateway, ip4addr_aton, minios_gateway, fork, clone, get_self_id, nanosleep,
  msleep, announce, open_file, write, get_page_size, alloc_pages, free_pages, mmap, munmap,
  start_networking, pthread_create, pthread_setname, pthread_cancel, pthread_join, create_thread,
  wait_event, asprintf, harness, xs_write, xs_watch_path, xs_read, xs_wait_event, xs_unwatch, Reply,
  Event, Trace, event, Env, State, Run, ok, exited, fault, out_of_fuel, Cmd, pure, and_then, ◌>>=◌,
  ◌>>◌, call, get_globals, put_globals, get_platform, get_configured, stale_int, stale_word,
}
use cloning_apps.System.Ends.{Ends, Never}
use cloning_apps.System.Ledger.{Holds, Balanced, AtMostOne, closes}
use cloning_apps.Net.{
  MySocket, NetMsg, OsServer, default_server_port, zero_msg, fit, overwrite, servaddr_init,
  inaddr_any, set_reuse_addr, bind_port, mysocket_open, mysocket_init, mysocket_fini,
  net_msg_init_buffer, net_msg_cleanup, start_listening, tcp_server_start, tcp_server_stop,
  tcp_server_accept, ensure_buffer, tcp_server_recv_msg, tcp_server_send_msg, tcp_server_started,
}
use cloning_apps.Net.Datagram.{
  udp_server_start, udp_server_recv_msg, stale_socket, udp_client_send, recv_within,
  udp_client_recv,
}
use cloning_apps.Net.Sockets.{SocketCalls, Opened, mysocket_open-Opened}

-- A reply with nothing in it.
abbrev pub nothing : Reply
nothing = record {
  value = pos 0;
  ptr = 0;
  errno = 0;
  bytes = [];
  peer = record { addr = 0; port = 0 };
  time = record { sec = pos 0; usec = pos 0 };
  spec = record { sec = pos 0; nsec = pos 0 };
}

-- The answer to `recv` after which a client is done: four bytes, then none.
abbrev after_call : Call → Reply
after_call (recv _ _) = nothing
after_call _ = record nothing { value = pos 4; bytes = 7 ∷ 0 ∷ 0 ∷ 0 ∷ [] }

abbrev pub received : Trace → Reply
received [] = nothing
received (e ∷ t) = after_call e.made

-- A file takes one byte at a time.
abbrev pub taken : List ℕ → ℤ
taken [] = minus_one
taken _ = pos 1

-- A machine on which most calls succeed, until `accept` fails.
abbrev pub calm_answer : Trace → Call → Reply
calm_answer t (socket _) = record nothing { value = pos 3 }
calm_answer t (accept _) = record nothing { value = if ltb (length t) 12 then pos 4 else minus_one }
calm_answer t (malloc _) = record nothing { ptr = 4096 }
calm_answer t (recv _ _) = received t
calm_answer t (write _ bytes) = record nothing { value = taken bytes }
calm_answer t fork = record nothing { value = pos 7 }
calm_answer t (clone _) = record nothing { value = pos 1 }
calm_answer t netdev_get = record nothing { ptr = 1 }
calm_answer t netdev_gateway = record nothing { ptr = 1 }
calm_answer t ip4addr_aton = record nothing { value = pos 1 }
calm_answer t (mmap _) = record nothing { ptr = 2 ^ 64 - 1 }
calm_answer t (recvfrom _ _) = record nothing { value = pos 5 }
calm_answer t (send _ bytes) = record nothing { value = pos (length bytes) }
calm_answer t _ = nothing

abbrev pub calm : Env
calm = record {
  answer = calm_answer;
  platform = posix;
  configured = λ _. true;
  stale_int = pos 9;
  stale_word = 77;
}

-- The same machine under Unikraft.
abbrev pub calm_unikraft : Env
calm_unikraft = record calm { platform = unikraft }

-- A machine on which nothing can be received, and no socket can be set up.
abbrev pub broken_answer : Trace → Call → Reply
broken_answer t (recv _ _) = record nothing { value = minus_one }
broken_answer t (reuse_addr _) = record nothing { value = minus_one }
broken_answer t (bind _ _) = record nothing { value = minus_one }
broken_answer t (recvfrom _ n) = record nothing { value = pos n }
broken_answer t (socket _) = record nothing { value = pos 3 }
broken_answer t _ = nothing

abbrev pub broken : Env
broken = record calm { answer = broken_answer }

abbrev pub start : State
start = record { trace = []; globals = initial_globals; memory = λ _. 0 }

abbrev pub listening : OsServer
listening = record { listener_socket = record { s = pos 3; port = 6613 } }

abbrev pub message : NetMsg
message = record zero_msg { connection = pos 4 }

abbrev pub calm_sockets : SocketCalls calm
calm_sockets = record { reuse = λ t d. refl; bind_code = λ t d a. refl }

-- Reports can be sent.
abbrev pub reached : Env
reached = record calm {
  answer = λ t made. elim made [
    | inet_aton _ ↦ record nothing { value = pos 1 }
    | other ↦ calm.answer t other
  ];
}

pub reached_calls : SocketCalls reached
reached_calls = record { reuse = λ t d. refl; bind_code = λ t d a. refl }
