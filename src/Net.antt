-- ===== src/Net.antt =====
-- The network layer of common/net.c, its sockets and its TCP server, over the structures of
-- common/net.h and os/posix/net.h. The functions take the structures that their pointers lead to
-- and return the new ones beside the return code. Where the code tests a pointer for NULL, `Option`
-- stands for the pointer.
pub mod Os
pub mod Sockets
pub mod Tcp
pub mod Messages
pub mod Buffers
pub mod Udp
pub mod Datagram
use cloning_apps.Base.{
  ℕ, ℤ, pos, Bool, true, false, Option, none, some, List, [], ◌++◌, ◌&&◌, take, drop, replicate,
  ◌==◌, if◌then◌else◌, is_neg, is_zero, pos_part, minus_one, minus_einval, minus_enomem, not,
}
use cloning_apps.System.{
  Env, Platform, posix, unikraft, minios, SockType, stream, dgram, SockAddr, socket, reuse_addr,
  bind, listen, accept, getpeername, recv, send, recvfrom, sendto, close, malloc, free, Cmd, pure,
  ◌>>=◌, ◌>>◌, call, get_platform, stale_int, stale_word,
}

-- `struct mysocket`
pub record MySocket : Type 0 where
  pub s : ℤ
  pub port : ℕ

-- `struct net_msg`. `netbuf` is the pointer and `contents` the bytes that it leads to.
pub record NetMsg : Type 0 where
  pub connection : ℤ
  pub netbuf : ℕ
  pub netbuf_size : ℕ
  pub contents : List ℕ
  pub client_addr : SockAddr
  pub client_port : ℕ

-- `struct os_server`
pub record OsServer : Type 0 where
  pub listener_socket : MySocket

-- `DEFAULT_SERVER_PORT`
abbrev pub default_server_port : ℕ
default_server_port = 6613

-- `memset(m, 0, sizeof(*m))`
abbrev pub zero_msg : NetMsg
zero_msg = record {
  connection = pos 0;
  netbuf = 0;
  netbuf_size = 0;
  contents = [];
  client_addr = record { addr = 0; port = 0 };
  client_port = 0;
}

-- Exactly `n` bytes, of which the first are `xs`.
unfoldable pub fit : ℕ → List ℕ → List ℕ
fit n xs = take n (xs ++ replicate n 0)

-- A buffer after a call has stored `n` bytes at its start.
unfoldable pub overwrite : ℕ → List ℕ → List ℕ → List ℕ
unfolding fit
overwrite n xs old = fit n xs ++ drop n old

abbrev pub servaddr_init : ℕ → ℕ → SockAddr
servaddr_init net_addr net_port = record { addr = net_addr; port = net_port }

-- `INADDR_ANY`
abbrev pub inaddr_any : ℕ
inaddr_any = 0

module _ ⦃env : Env⦄ where
  -- The `#ifndef __MINIOS__` part of `mysocket_init`. A failure closes the descriptor and goes on.
  unfoldable pub set_reuse_addr : ℤ → Cmd ℤ
  set_reuse_addr s = elim get_platform [
    | minios ↦ pure (pos 0)
    | _ ↦ do
      r ← call (reuse_addr s)
      if is_neg r.value then (do call (close s); pure r.value) else pure r.value
  ]

  -- The rest of `mysocket_init`, with the return code that it has so far.
  unfoldable pub bind_port : MySocket → ℤ → ℕ → Cmd (ℤ × MySocket)
  bind_port sock rc port = if port == 0 then pure (rc, record sock { port = port }) else do
    r ← call (bind sock.s (servaddr_init inaddr_any port))
    if is_neg r.value
        then (do call (close sock.s); pure (r.value, sock))
        else pure (r.value, record sock { port = port })

  -- `mysocket_init` of a structure that is there
  unfoldable pub mysocket_open : MySocket → SockType → ℕ → Cmd (ℤ × MySocket)
  unfolding set_reuse_addr bind_port
  mysocket_open sock type port = do
    r ← call (socket type)
    if is_neg r.value
        then pure (minus_one, record sock { s = r.value })
        else do rc ← set_reuse_addr r.value; bind_port (record sock { s = r.value }) rc port

  unfoldable pub mysocket_init : Option MySocket → SockType → ℕ → Cmd (ℤ × Option MySocket)
  unfolding mysocket_open
  mysocket_init none type port = pure (minus_einval, none)
  mysocket_init (some sock) type port = do
    (rc, sock') ← mysocket_open sock type port
    pure (rc, some sock')

  unfoldable pub mysocket_fini : Option MySocket → Cmd ℤ
  mysocket_fini none = pure minus_einval
  mysocket_fini (some sock) =
      if is_neg sock.s then pure (pos 0) else (do call (close sock.s); pure (pos 0))

  unfoldable pub net_msg_init_buffer : NetMsg → Cmd (ℤ × NetMsg)
  unfolding fit
  net_msg_init_buffer m = do
    r ← call (malloc 4096)
    let m' = record m { netbuf_size = 4096; netbuf = r.ptr; contents = fit 4096 r.bytes }
    if r.ptr == 0 then pure (minus_enomem, m') else pure (pos 0, m')

  -- `net_msg_cleanup` leaves `netbuf` as it is.
  unfoldable pub net_msg_cleanup : NetMsg → Cmd NetMsg
  net_msg_cleanup m =
      (if m.netbuf == 0 then pure tt else (do call (free m.netbuf); pure tt))
      >> (if is_neg m.connection
          then pure m
          else (do call (close m.connection); pure (record m { connection = minus_one })))

  -- `listen`, and the label `out_cleanup`
  unfoldable pub start_listening : OsServer → Cmd (ℤ × OsServer)
  start_listening srv = do
    r ← call (listen srv.listener_socket.s 5)
    if is_zero r.value then pure (r.value, srv) else do
      call (close srv.listener_socket.s)
      pure (r.value, record srv { listener_socket = record srv.listener_socket { s = minus_one } })

  unfoldable pub tcp_server_start : Option OsServer → ℕ → Cmd (ℤ × Option OsServer)
  unfolding mysocket_open start_listening
  tcp_server_start none port = pure (minus_einval, none)
  tcp_server_start (some srv) port = do
    (rc, sock) ← mysocket_open srv.listener_socket stream port
    if is_zero rc
        then (do
          (rc, srv') ← start_listening (record srv { listener_socket = sock })
          pure (rc, some srv'))
        else pure (rc, some (record srv { listener_socket = sock }))

  unfoldable pub tcp_server_stop : Option OsServer → Cmd (ℤ × Option OsServer)
  tcp_server_stop none = pure (minus_einval, none)
  tcp_server_stop (some srv) = if is_neg srv.listener_socket.s then pure (pos 0, some srv) else do
    call (close srv.listener_socket.s)
    pure (
      pos 0,
      some (record srv { listener_socket = record srv.listener_socket { s = minus_one } }),
    )

  unfoldable pub tcp_server_accept : OsServer → Cmd (ℤ × NetMsg)
  unfolding net_msg_cleanup
  tcp_server_accept srv = do
    a ← call (accept srv.listener_socket.s)
    let m = record zero_msg { connection = a.value; client_addr = a.peer }
    if is_neg a.value then (do m' ← net_msg_cleanup m; pure (minus_one, m')) else do
      p ← call (getpeername a.value)
      let m = record m { client_addr = p.peer }
      if is_zero p.value then pure (pos 0, m) else (do m' ← net_msg_cleanup m; pure (p.value, m'))

  -- The buffer that both receiving functions make sure of.
  unfoldable pub ensure_buffer : NetMsg → Cmd (ℤ × NetMsg)
  unfolding net_msg_init_buffer
  ensure_buffer m = if m.netbuf == 0 then net_msg_init_buffer m else pure (pos 0, m)

  unfoldable pub tcp_server_recv_msg : NetMsg → Cmd (ℤ × NetMsg)
  unfolding ensure_buffer overwrite
  tcp_server_recv_msg m = do
    (rc, m') ← ensure_buffer m
    if is_zero rc
        then (do
          r ← call (recv m'.connection m'.netbuf_size)
          pure (r.value, record m' { contents = overwrite (pos_part r.value) r.bytes m'.contents }))
        else pure (rc, m')

  unfoldable pub tcp_server_send_msg : NetMsg → Cmd ℤ
  tcp_server_send_msg m =
      if m.netbuf == 0
      then pure minus_einval
      else (do r ← call (send m.connection (take m.netbuf_size m.contents)); pure r.value)

abbrev pub tcp_server_started : OsServer → Bool
tcp_server_started srv = if is_neg srv.listener_socket.s then false else true
