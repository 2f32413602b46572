-- ===== src/Servers/Children.antt =====
-- How the server of children.c ends: at `out_server_stop`, or by its jump to `out`.
use cloning_apps.Base.{ℕ, ℤ, ◌≡◌, Bool, true, false, is_neg, if◌then◌else◌, minus_one}
use cloning_apps.System.{Env, State, Trace, Run, Cmd, pure, ◌>>◌}
use cloning_apps.System.Ends
use cloning_apps.System.Ends.{Ends}
use cloning_apps.System.Ledger.{Owns, Even, OwnsOne, no_books, Even-Owns}
use cloning_apps.Net.{NetMsg, OsServer, net_msg_cleanup}
use cloning_apps.Net.Messages.{net_msg_cleanup-Balanced}
use cloning_apps.Servers.{Served, at_cleanup, goto_out, serve_children}

-- An open connection, with the buffer of its message, is all that was acquired from `t` to `u` and
-- not given back.
pub record Leaks (t u : Trace) : Type 0 where
  pub msg : NetMsg
  pub is_open : is_neg msg.connection ≡ false
  pub held : Owns msg.connection msg.netbuf t u

-- The outcome of a request.
abbrev pub Handled : Trace → Served → State → Type 0
Handled t (at_cleanup rc m) s' = Owns m.connection m.netbuf t s'.trace
Handled t (goto_out rc) s' = (is_neg rc ≡ true) × Leaks t s'.trace

-- The outcome of the loop: at `out_server_stop` everything is given back, and at `out` one
-- connection is left open.
abbrev pub Left : Trace → ℤ × Bool → State → Type 0
Left t (rc, stop) s' = if stop then Even t s'.trace else (is_neg rc ≡ true) × Leaks t s'.trace

module _ ⦃env : Env⦄ where
  abbrev Serves : Trace → Run (ℤ × Bool) → Type 0
  Serves t = Ends (Left t) (λ s'. OwnsOne t s'.trace)

  Left-later : (t u : Trace) (r : ℤ × Bool) (s' : State) → Even t u → Left u r s' → Left t r s'
  Left-later t u (rc, true) s' b h = Even-Owns minus_one 0 t u s'.trace b h
  Left-later t u (rc, false) s' b (bad, leak) = (
    bad,
    record {
      msg = leak.msg;
      is_open = leak.is_open;
      held = Even-Owns leak.msg.connection leak.msg.netbuf t u s'.trace b leak.held;
    },
  )

  Serves-later : (t u : Trace) (r : Run (ℤ × Bool)) → Even t u → Serves u r → Serves t r
  Serves-later t u r b o =
      Ends.mono (Left u) (λ s'. OwnsOne u s'.trace) _ _ r o (λ a s' h. Left-later t u a s' b h)
        (λ s' (d, a, h). (d, a, Even-Owns d a t u s'.trace b h))

  -- What the loop does after a request.
  after_request :
      (fuel : ℕ) (server : OsServer) (s s2 : State) (r : Served)
      → Handled s.trace r s2
      → ((s : State) → Serves s.trace (serve_children fuel server s))
      → Serves s.trace (
          let next : Cmd (ℤ × Bool) = elim r [
            | at_cleanup rc msg ↦ do
              net_msg_cleanup msg
              if is_neg rc then pure (rc, true) else serve_children fuel server
            | goto_out rc ↦ pure (rc, false)
          ] in
          next s2)
  after_request fuel server s s2 (goto_out rc) h others = h
  after_request fuel server s s2 (at_cleanup rc m) h others =
      Ends.bind_total _ _ (Left s.trace) (net_msg_cleanup m s2) _
        (Ends.all_total no_books _ (net_msg_cleanup m s2)
          λ b. net_msg_cleanup-Balanced b.0 b.1 m s.trace s2 (h b))
        λ _ s3 cleaned.
          let b : Even s.trace s3.trace = λ j. (cleaned j).0 in
          Ends.branch (Left s.trace) (λ s'. OwnsOne s.trace s'.trace) (is_neg rc) _ _ s3 (λ _. b)
            λ _. Serves-later s.trace s3.trace (serve_children fuel server s3) b (others s3)
