-- ===== src/Net/Datagram.antt =====
-- The UDP functions of common/net.c.
use cloning_apps.Base.{
  ℕ, ℤ, pos, Option, none, some, List, [], ◌&&◌, if◌then◌else◌, is_neg, is_zero, pos_part,
  minus_one, not,
}
use cloning_apps.System.{
  Env, dgram, recv, recvfrom, sendto, close, Cmd, pure, ◌>>=◌, ◌>>◌, call, stale_int, stale_word,
}
use cloning_apps.Net.{MySocket, NetMsg, mysocket_open, ensure_buffer, fit, overwrite, servaddr_init}
use cloning_apps.Net.Os.{os_socket_set_timeout}

module _ ⦃env : Env⦄ where
  unfoldable pub udp_server_start : MySocket → ℕ → Cmd (ℤ × MySocket)
  unfolding mysocket_open
  udp_server_start sock port = mysocket_open sock dgram port

  unfoldable pub udp_server_recv_msg : MySocket → NetMsg → Cmd (ℤ × NetMsg)
  unfolding ensure_buffer overwrite
  udp_server_recv_msg sock m = do
    (rc, m') ← ensure_buffer m
    if is_zero rc
        then (do
          r ← call (recvfrom sock.s m'.netbuf_size)
          let stored = overwrite (pos_part r.value) r.bytes m'.contents
          pure (r.value, record m' { contents = stored; client_addr = r.peer }))
        else pure (rc, m')

  -- A `struct mysocket` that was never assigned.
  abbrev pub stale_socket : MySocket
  stale_socket = record { s = stale_int; port = stale_word }

  -- `sock` is NULL or a socket of the caller's.
  unfoldable pub udp_client_send : Option MySocket → ℕ → ℕ → List ℕ → Cmd ℤ
  unfolding mysocket_open
  udp_client_send (some sock) ip port bytes = do
    r ← call (sendto sock.s (servaddr_init ip port) bytes)
    pure r.value
  udp_client_send none ip port bytes = do
    (rc, sock) ← mysocket_open stale_socket dgram 0
    if is_zero rc
        then (do
          r ← call (sendto sock.s (servaddr_init ip port) bytes)
          call (close sock.s)
          pure r.value)
        else pure minus_one

  -- From the test of `timeout_ms` up to the label `out_close`: the return code and what `recv`
  -- stored.
  unfoldable pub recv_within : MySocket → ℕ → ℤ → Cmd (ℤ × List ℕ)
  unfolding fit os_socket_set_timeout
  recv_within sock size timeout_ms = do
    rc ← (if is_zero timeout_ms then pure (pos 0) else os_socket_set_timeout sock.s timeout_ms)
    if not (is_zero timeout_ms) && is_neg rc
        then pure (rc, [])
        else (do r ← call (recv sock.s size); pure (r.value, fit (pos_part r.value) r.bytes))

  unfoldable pub udp_client_recv : Option MySocket → ℕ → ℕ → ℤ → Cmd (ℤ × List ℕ)
  unfolding mysocket_open recv_within
  udp_client_recv (some sock) port size timeout_ms = recv_within sock size timeout_ms
  udp_client_recv none port size timeout_ms = do
    (rc, sock) ← mysocket_open stale_socket dgram port
    if is_zero rc
        then (do got ← recv_within sock size timeout_ms; call (close sock.s); pure got)
        else pure (rc, [])
