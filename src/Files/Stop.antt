-- ===== src/Files/Stop.antt =====
-- How the file server of files.c is told to stop.
use cloning_apps.Base.{
  ℕ, suc, ◌≡◌, true, false, refl, List, ◌∷◌, ◌==◌, is_neg, is_zero, codes, has_prefix, pos_part,
}
use cloning_apps.System.{
  Env, State, Trace, Reply, accept, getpeername, malloc, recv, free, close, event,
}
use cloning_apps.System.Ends.{Ends, Never}
use cloning_apps.Net.{
  OsServer, fit, overwrite, tcp_server_accept, tcp_server_recv_msg, ensure_buffer,
  net_msg_init_buffer, net_msg_cleanup,
}
use cloning_apps.Files.{serve_files, handle_request}

module _ ⦃env : Env⦄ (server : OsServer) (s : State) where
  -- The replies to the calls for one client.
  abbrev pub conn : Reply
  conn = env.answer s.trace (accept server.listener_socket.s)

  abbrev pub t1 : Trace
  t1 = event (accept server.listener_socket.s) conn ∷ s.trace

  abbrev pub peer : Reply
  peer = env.answer t1 (getpeername conn.value)

  abbrev pub t2 : Trace
  t2 = event (getpeername conn.value) peer ∷ t1

  abbrev pub block : Reply
  block = env.answer t2 (malloc 4096)

  abbrev pub t3 : Trace
  t3 = event (malloc 4096) block ∷ t2

  abbrev pub got : Reply
  got = env.answer t3 (recv conn.value 4096)

  -- What the buffer then holds: what was received, and behind it what the block held before.
  abbrev pub request : List ℕ
  request = overwrite (pos_part got.value) got.bytes (fit 4096 block.bytes)

  -- The calls that are made for one client with such a request.
  abbrev pub one_client : Trace
  one_client =
      let t4 = event (recv conn.value 4096) got ∷ t3 in
      let t5 = event (free block.ptr) (env.answer t4 (free block.ptr)) ∷ t4 in
      event (close conn.value) (env.answer t5 (close conn.value)) ∷ t5

  -- If a client connects, its buffer is allocated, `recv` succeeds, and the buffer then begins with
  -- "stop", the loop of the file server ends with this client, cleans up after it, and returns what
  -- `recv` returned. The buffer holds what came and, behind that, what the block held before it was
  -- allocated: so it may begin with "stop" where nothing came.
  pub serve_files-Stops :
      (fuel : ℕ)
      → is_neg conn.value ≡ false
      → is_zero peer.value ≡ true
      → (block.ptr == 0) ≡ false
      → is_neg got.value ≡ false
      → has_prefix (codes "stop") request ≡ true
      → Ends
          (λ rc s'. (rc ≡ got.value) × (s'.trace ≡ one_client))
          Never
          (serve_files (suc fuel) server s)
  unfolding serve_files tcp_server_accept tcp_server_recv_msg ensure_buffer net_msg_init_buffer
      net_msg_cleanup handle_request overwrite fit
  serve_files-Stops fuel connected known there came stop =
      rw (connected, known, there, came) (rw stop (rw (there, connected) (refl, refl)))
