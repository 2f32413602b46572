-- ===== src/Files/Loop.antt =====
-- The loop of the file server, files.c: its connections and its files.
use cloning_apps.Base.{
  ℕ, ℤ, zero, suc, inl, inr, arith, is_neg, Bool-cases, codes, has_prefix, ◌*◌, some, none, Option,
}
use cloning_apps.System.{Env, State, Trace, Run, Cmd}
use cloning_apps.System.Ends
use cloning_apps.System.Ends.{Ends, Never}
use cloning_apps.System.Ledger.{Holds, is_fd, is_fd-le}
use cloning_apps.Net.{NetMsg, OsServer, net_msg_cleanup, tcp_server_recv_msg}
use cloning_apps.Servers.Contract.{Contract, relax, Serves, accepts-then}
use cloning_apps.Servers.Contract.Ledger.{books}
use cloning_apps.Files.{
  write_request, WriteType, create_file_write_data, handle_request, str_to_write_type, serve_files,
  Request,
}
use cloning_apps.Files.Create.{WholeWords}
use cloning_apps.Files.Descriptors.{
  Open, OpenAtMost, Handles, create_file_write_data-Handles, allocs-null, frees-null, is_ptr-null,
}

module _ ⦃env : Env⦄ (server : OsServer) (c : Contract env server) where
  -- A handler of one request of the file server.
  abbrev HandlesRequests : (ℤ → NetMsg → Cmd Request) → Type 0
  HandlesRequests handle =
      (rc : ℤ) (m : NetMsg) (s : State)
      → c.Got m s
      → Ends (λ _ s'. c.Spent m s') c.Stopped (handle rc m s)

  -- The loop of files.c keeps every account that its handler keeps.
  serve_files-Serves :
      ((fuel : ℕ) → HandlesRequests (handle_request fuel))
      → (fuel : ℕ) (s : State) → c.Idle s
      → Serves server c (serve_files fuel server s)
  unfolding serve_files
  serve_files-Serves handles zero s idle = c.idle_stopped s idle
  serve_files-Serves handles (suc fuel) s idle = accepts-then server c _ s idle λ (rc, m) s1 ready.
      Ends.bind_total _ _ _ (tcp_server_recv_msg m s1) _ (c.receives m s1 ready) λ (rc, m') s2 got.
        elim (Bool-cases (is_neg rc)) [
          | inl bad ↦ rw bad (
              Ends.bind_total _ _ _ (net_msg_cleanup m' s2) _ (c.cleans m' s2 (rw bad at got))
                λ _ s3 idle'. idle')
          | inr good ↦ rw good (
              Ends.bind _ _ _ (handle_request fuel rc m' s2) _
                (handles fuel rc m' s2 (rw good at got))
                λ r s3 spent.
                  Ends.bind_total _ _ _ (net_msg_cleanup m' s3) _ (c.cleans m' s3 spent)
                    λ _ s4 idle'.
                      Ends.branch _ _ r.keep_running _ _ s4
                        (λ _. serve_files-Serves handles fuel s4 idle') λ _. idle')
        ]

module _ ⦃env : Env⦄ (whole : WholeWords env) (fd : ℤ) where
  write_request-Handles :
      (fuel : ℕ) (w : Option WriteType) (n : ℕ) (t : Trace) (s : State)
      → Open fd n t s.trace
      → Handles whole fd n t (write_request fuel w s)
  unfolding write_request
  write_request-Handles fuel none n t s h = h
  write_request-Handles fuel (some wt) n t s h =
      Ends.bind _ _ _ (create_file_write_data fuel (codes "/root/data") (4 * 1024 * 1024) wt s) _
        (create_file_write_data-Handles whole fd fuel (codes "/root/data") (4 * 1024 * 1024) wt n t
          s h)
        λ rc s' k. k

  handle_request-Handles :
      (fuel : ℕ) (rc : ℤ) (msg : NetMsg) (n : ℕ) (t : Trace) (s : State)
      → Open fd n t s.trace
      → Handles whole fd n t (handle_request fuel rc msg s)
  unfolding handle_request
  handle_request-Handles fuel rc msg n t s h =
      Ends.branch _ _ (has_prefix (codes "stop") msg.contents) _ _ s (λ _. h)
        λ _. write_request-Handles fuel (str_to_write_type msg.contents) n t s h

  pub Open-Holds : (d : ℤ) (a : ℕ) (t u : Trace) → Open fd (is_fd fd d) t u → Holds fd 0 d a t u
  Open-Holds d a t u h =
      (h, omega (arith, allocs-null t, allocs-null u, frees-null t, frees-null u, is_ptr-null a))

  -- The outcome of the loop: all is closed when it returns, and at most a connection and a file are
  -- open when it is stopped.
  abbrev pub ClosesAll : Trace → Run ℤ → Type 0
  ClosesAll t = Ends (λ _ s'. Open fd 0 t s'.trace) (λ s'. OpenAtMost fd 2 t s'.trace)

  -- The account of the loop since `t`: a file may be open besides the connection where it is
  -- stopped.
  abbrev files : (server : OsServer) → Trace → Contract env server
  files server t =
      relax env server (books fd 0 server t) (λ s. OpenAtMost fd 2 t s.trace) λ s held. omega arith

  request-Spent :
      (server : OsServer) (t : Trace) (fuel : ℕ)
      → HandlesRequests server (files server t) (handle_request fuel)
  request-Spent server t fuel rc m s held =
      Ends.mono _ _ _ _ (handle_request fuel rc m s)
        (handle_request-Handles fuel rc m (is_fd fd m.connection) t s held.0)
        (λ _ s' o. Open-Holds m.connection m.netbuf t s'.trace o)
        λ s' (k, le, o). omega (arith, is_fd-le fd 0 m.connection)

  -- If a write of eight bytes is never cut short, the loop of the file server makes no fault, has
  -- closed each connection and each file exactly once when it returns, also after an error, and has
  -- at most two descriptors open when it is stopped after any number of rounds.
  pub serve_files-ClosesAll :
      (fuel : ℕ) (server : OsServer) (s : State) → ClosesAll s.trace (serve_files fuel server s)
  serve_files-ClosesAll fuel server s =
      Ends.mono _ _ _ _ (serve_files fuel server s)
        (serve_files-Serves server (files server s.trace) (request-Spent server s.trace) fuel s
          (omega arith))
        (λ _ s' b. b.0) λ s' o. o
