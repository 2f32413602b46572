-- ===== src/Servers.antt =====
-- The applications that serve a port: server-tcp.c, counter.c, children.c, server-udp.c and
-- sleeper.c. Each loops for ever unless a call fails, so each runs on fuel: `fuel` bounds the
-- rounds of a loop, and `rounds` the loop of `send_time`. The threads return their code as a
-- number.
pub mod Contract
pub mod Books
pub mod Counter
pub mod Children
pub mod Lifetime
pub mod Udp
pub mod Session
pub mod Refines
pub mod Overflow
pub mod Returns
pub mod Halting
use cloning_apps.Base.{
  ℕ, ℤ, zero, suc, pos, Bool, true, false, Option, none, some, List, [], ◌++◌, ◌+◌, ◌-◌, ◌%◌, ◌^◌,
  ◌==◌, ◌&&◌, not, if◌then◌else◌, is_neg, is_zero, minus_one, take, drop, le_bytes, from_le_bytes,
}
use cloning_apps.System.{
  Env, SockAddr, announce, Cmd, pure, out_of_fuel, fault, ◌>>=◌, ◌>>◌, call, stale_word,
}
use cloning_apps.Net.{
  MySocket, NetMsg, OsServer, default_server_port, zero_msg, net_msg_cleanup, tcp_server_start,
  tcp_server_stop, tcp_server_started, tcp_server_accept, tcp_server_recv_msg, tcp_server_send_msg,
}
use cloning_apps.Net.Datagram.{stale_socket, udp_server_start, udp_server_recv_msg}
use cloning_apps.Time.{os_sleep_msec}
use cloning_apps.Clone.{os_clone}
use cloning_apps.Prologue.{server_prologue}

-- How a round of children.c ends: at the label `cleanup`, or by the jump to `out`, which passes
-- over `net_msg_cleanup` and `tcp_server_stop`.
pub data Served : Type 0 where
  at_cleanup : ℤ → NetMsg → Served
  goto_out : ℤ → Served

-- From `counter += 1` to `tcp_server_send_msg`: the first four bytes of the buffer are an `int`.
unfoldable pub count_up : NetMsg → NetMsg
unfolding le_bytes from_le_bytes
count_up msg =
    let counter = (from_le_bytes (take 4 msg.contents) + 1) % 2 ^ 32 in
    record msg { contents = le_bytes 4 counter ++ drop 4 msg.contents; netbuf_size = 4 }

-- At the largest `int` C leaves the addition undefined.
abbrev pub is_largest : NetMsg → Bool
is_largest msg = from_le_bytes (take 4 msg.contents) == 2 ^ 31 - 1

-- The test of server-udp.c for a client other than the previous one.
abbrev pub is_new_client : SockAddr → ℕ → SockAddr → Bool
is_new_client prev_client_addr prev_client_port client =
    if client.port == prev_client_port
    then not (prev_client_addr.addr == client.addr && prev_client_addr.port == client.port)
    else true

module _ ⦃env : Env⦄ where
  -- `struct os_server server;`
  abbrev pub stale_server : OsServer
  stale_server = record { listener_socket = stale_socket }

  -- The inner loop of server-tcp.c: receive until the client is done or an error comes.
  unfoldable pub drain : ℕ → NetMsg → Cmd (ℤ × NetMsg)
  drain zero msg = out_of_fuel
  drain (suc fuel) msg = do
    (rc, msg) ← tcp_server_recv_msg msg
    if is_zero rc then pure (rc, msg) else if is_neg rc then pure (rc, msg) else drain fuel msg

  -- The outer loop of server-tcp.c, up to the label `out_server_stop`.
  unfoldable pub serve_tcp : ℕ → OsServer → Cmd ℤ
  serve_tcp zero server = out_of_fuel
  serve_tcp (suc fuel) server = do
    (rc, msg) ← tcp_server_accept server
    if is_zero rc
        then (do
          (rc, msg) ← drain fuel msg
          net_msg_cleanup msg
          if is_neg rc then pure rc else serve_tcp fuel server)
        else pure rc

  -- One request of counter.c, from `tcp_server_recv_msg` to the label `cleanup`.
  unfoldable pub handle_counter : NetMsg → Cmd (ℤ × NetMsg)
  handle_counter msg = do
    (rc, msg) ← tcp_server_recv_msg msg
    if is_zero rc
        then pure (rc, msg)
        else if is_neg rc
        then pure (rc, msg)
        else if is_largest msg
        then fault
        else (do rc ← tcp_server_send_msg (count_up msg); pure (rc, count_up msg))

  unfoldable pub serve_counter : ℕ → OsServer → Cmd ℤ
  serve_counter zero server = out_of_fuel
  serve_counter (suc fuel) server = do
    (rc, msg) ← tcp_server_accept server
    if is_zero rc
        then (do
          (rc, msg) ← handle_counter msg
          net_msg_cleanup msg
          if is_neg rc then pure rc else serve_counter fuel server)
        else pure rc

  -- One request of children.c, from `tcp_server_recv_msg` to the label `cleanup`.
  unfoldable pub handle_children : NetMsg → Cmd Served
  handle_children msg = do
    (rc, msg) ← tcp_server_recv_msg msg
    if is_zero rc
        then pure (at_cleanup rc msg)
        else if is_neg rc
        then pure (at_cleanup rc msg)
        else (do rc ← os_clone 1; pure (if is_neg rc then goto_out rc else at_cleanup rc msg))

  -- The loop of children.c: the code, and whether it ended at `out_server_stop`.
  unfoldable pub serve_children : ℕ → OsServer → Cmd (ℤ × Bool)
  serve_children zero server = out_of_fuel
  serve_children (suc fuel) server =
      if not (tcp_server_started server)
      then os_sleep_msec 5000 >> serve_children fuel server
      else do
        (rc, msg) ← tcp_server_accept server
        if is_zero rc
            then (do
              r ← handle_children msg
              elim r [
                | at_cleanup rc msg ↦ do
                  net_msg_cleanup msg
                  if is_neg rc then pure (rc, true) else serve_children fuel server
                | goto_out rc ↦ pure (rc, false)
              ])
            else pure (rc, true)

  -- A loop that always ends at `out_server_stop`
  abbrev pub until_stop : (OsServer → Cmd ℤ) → OsServer → Cmd (ℤ × Bool)
  until_stop serve server = do rc ← serve server; pure (rc, true)

  -- What the three TCP servers do after the prologue: the start and the end around a loop. The loop
  -- tells whether it ended at `out_server_stop`.
  unfoldable pub serve_started : (OsServer → Cmd (ℤ × Bool)) → ℤ → Option OsServer → Cmd ℤ
  serve_started serve rc none = pure rc
  serve_started serve rc (some server) =
      if is_zero rc
      then (do
        (rc, stop) ← serve server
        if stop then tcp_server_stop (some server) >> pure rc else pure rc)
      else pure rc

  unfoldable pub start_and_serve : (OsServer → Cmd (ℤ × Bool)) → Cmd ℤ
  start_and_serve serve = do
    (rc, server) ← tcp_server_start (some stale_server) default_server_port
    serve_started serve rc server

  unfoldable pub with_server : ℕ → (OsServer → Cmd (ℤ × Bool)) → Cmd ℤ
  with_server rounds serve = do
    (rc, _) ← server_prologue rounds
    if is_zero rc then start_and_serve serve else pure rc

  unfoldable pub thread_func_server_tcp : ℕ → ℕ → Cmd ℤ
  thread_func_server_tcp rounds fuel = with_server rounds (until_stop (serve_tcp fuel))

  unfoldable pub thread_func_counter : ℕ → ℕ → Cmd ℤ
  thread_func_counter rounds fuel = with_server rounds (until_stop (serve_counter fuel))

  unfoldable pub thread_func_children : ℕ → ℕ → Cmd ℤ
  thread_func_children rounds fuel = with_server rounds (serve_children fuel)

  -- The loop of server-udp.c. A failure to receive jumps over `net_msg_cleanup`.
  unfoldable pub serve_udp : ℕ → MySocket → SockAddr → ℕ → Cmd ℤ
  serve_udp zero listener prev_client_addr prev_client_port = out_of_fuel
  serve_udp (suc fuel) listener prev_client_addr prev_client_port = do
    (rc, msg) ← udp_server_recv_msg listener (record zero_msg { connection = minus_one })
    if is_neg rc
        then pure rc
        else if is_new_client prev_client_addr prev_client_port msg.client_addr
        then (do
          call (announce msg.client_addr)
          net_msg_cleanup msg
          serve_udp fuel listener msg.client_addr msg.client_addr.port)
        else (do net_msg_cleanup msg; serve_udp fuel listener prev_client_addr prev_client_port)

  unfoldable pub thread_func_server_udp : ℕ → ℕ → Cmd ℤ
  thread_func_server_udp rounds fuel = do
    (rc, _) ← server_prologue rounds
    if is_zero rc
        then (do
          (rc, listener) ← udp_server_start stale_socket default_server_port
          if is_zero rc
              then serve_udp fuel listener (record { addr = stale_word; port = stale_word }) 0
              else pure rc)
        else pure rc

  -- sleeper.c
  unfoldable pub thread_func_sleeper : ℕ → Cmd ℤ
  thread_func_sleeper zero = out_of_fuel
  thread_func_sleeper (suc fuel) = do os_sleep_msec 5000; thread_func_sleeper fuel
