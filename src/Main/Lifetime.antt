-- ===== src/Main/Lifetime.antt =====
-- server-tcp.c as `main` starts it, with reports: the prologue of server-common.c, the server
-- and its loop, and what is open when the program ends.
use cloning_apps.Base.{
  ℕ, ℤ, suc, pos, ◌≡◌, sym, true, false, Bool, List, [], ◌∷◌, Option, none, some, arith, is_zero,
  Bool-cases, inl, inr, minus_one,
}
use mathlib.Core.Path.{subst}
use cloning_apps.Globals.{App, app_server_tcp}
use cloning_apps.System.{Env, State, Run, Cmd, get_configured}
use cloning_apps.System.Ends
use cloning_apps.System.Ends.{Ends, Never}
use cloning_apps.System.Ledger.{Balanced, Even, no_books, Even-Owns, Owns-Even}
use cloning_apps.Net.{OsServer}
use cloning_apps.Net.Sockets.{SocketCalls}
use cloning_apps.Boot.{os_app_init}
use cloning_apps.Prologue.{server_prologue}
use cloning_apps.Prologue.Sockets.{Limit}
use cloning_apps.Prologue.Server.{
  ServerForked, OpenAfter, server_prologue-ServerForked, server_prologue-OpenAfter,
}
use cloning_apps.Servers.{
  with_server, start_and_serve, until_stop, serve_tcp, thread_func_server_tcp,
}
use cloning_apps.Servers.Books.{GivesBack, serve_tcp-GivesBack}
use cloning_apps.Servers.Lifetime.{Any, start_and_serve-Clean}
use cloning_apps.Cmdline.Settings.{
  Setting, apply_all, AllAccepted, AllOffered, all_written, all_got,
}
use cloning_apps.Main.{Arguments, run_app, start_app, main}
use cloning_apps.Main.Dispatch.{main-start_app}

module _ ⦃env : Env⦄ (h : SocketCalls env) (rounds : ℕ) where
  -- One descriptor at most is open that was not open before, and every buffer is freed.
  abbrev pub EndsWithOne : {A : Type 0} → State → Run A → Type 0
  EndsWithOne s = Ends (λ _ s'. Limit s.trace s') Any

  Forked-Limit :
      (n : ℕ) (s : State) (rc : ℤ) (c : Option Bool) (s' : State)
      → ServerForked s.trace n (rc, c) s'
      → Limit s.trace s'
  Forked-Limit n s rc (some true) s' (z, sock, (valid, held), _, _, _, _) = (sock.s, held)
  Forked-Limit n s rc (some false) s' (z, sock, (valid, held), _) = (sock.s, held)
  Forked-Limit n s rc none s' o = elim (Bool-cases (is_zero rc)) [
    | inl good ↦ let (sock, (valid, held)) = rw good at o in (sock.s, held)
    | inr bad ↦ rw bad at o
  ]

  OpenAfter-Limit :
      (clones : Bool) (s : State) (rc : ℤ) (c : Option Bool) (s' : State)
      → OpenAfter s.trace clones (rc, c) s'
      → Limit s.trace s'
  OpenAfter-Limit true s rc c s' o = elim (Bool-cases (is_zero rc)) [
    | inl good ↦ let (sock, (valid, held)) = rw good at o in (sock.s, held)
    | inr bad ↦ rw bad at o
  ]
  OpenAfter-Limit false s rc c s' o = elim (Bool-cases (is_zero rc)) [
    | inl good ↦ (minus_one, rw good at o)
    | inr bad ↦ rw bad at o
  ]

  prologue-EndsWithOne :
      (n : ℕ) (s : State)
      → s.globals.do_send_time ≡ true
      → s.globals.children_num ≡ pos (suc n)
      → EndsWithOne s (server_prologue rounds s)
  prologue-EndsWithOne n s reports children = elim (Bool-cases s.globals.do_fork) [
    | inl forks ↦
        Ends.mono _ _ _ _ (server_prologue rounds s)
          (server_prologue-ServerForked h rounds n s reports forks children)
          (λ (rc, c) s' o. Forked-Limit (suc n) s rc c s' o) λ _ _. tt
    | inr single ↦
        Ends.mono _ _ _ _ (server_prologue rounds s)
          (server_prologue-OpenAfter h rounds s reports single)
          (λ (rc, c) s' o. OpenAfter-Limit s.globals.do_clone s rc c s' o) λ _ _. tt
  ]

  with_server-EndsWithOne :
      (serve : OsServer → Cmd ℤ) (n : ℕ) (s : State)
      → ((b : ℤ × ℕ) (server : OsServer) (s : State) → GivesBack b.0 b.1 s.trace (serve server s))
      → s.globals.do_send_time ≡ true
      → s.globals.children_num ≡ pos (suc n)
      → EndsWithOne s (with_server rounds (until_stop serve) s)
  unfolding with_server
  with_server-EndsWithOne serve n s back reports children =
      Ends.bind _ _ _ (server_prologue rounds s) _ (prologue-EndsWithOne n s reports children)
        λ (rc, c) s1 (d, held).
          Ends.branch _ _ (is_zero rc) _ _ s1
            (λ _.
              Ends.mono _ _ _ _ (start_and_serve (until_stop serve) s1)
                (Ends.all no_books _ _ (start_and_serve (until_stop serve) s1)
                  λ b. start_and_serve-Clean b.0 b.1 h serve s1 (back b))
                (λ _ s' even. (d, Owns-Even d 0 s.trace s1.trace s'.trace held even)) λ _ _. tt)
            λ _. (d, held)

  app_init-Balanced :
      (fd : ℤ) (p : ℕ) (s : State)
      → Ends
          (λ _ s'. Balanced fd p s.trace s'.trace × (s'.globals ≡ s.globals))
          Never
          (os_app_init s)
  unfolding os_app_init
  app_init-Balanced fd p s = ground arith

  app_init-Even :
      (s : State)
      → Ends (λ _ s'. Even s.trace s'.trace × (s'.globals ≡ s.globals)) Never (os_app_init s)
  app_init-Even s =
      Ends.mono _ _ _ _ (os_app_init s)
        (Ends.all_total no_books _ (os_app_init s) λ b. app_init-Balanced b.0 b.1 s)
        (λ _ s' q. ((λ b. (q b).0), (q no_books).1)) λ _ no_way. no_way

  run_app-EndsWithOne :
      (fuel n : ℕ) (app : App) (s : State)
      → app ≡ app_server_tcp
      → s.globals.do_send_time ≡ true
      → s.globals.children_num ≡ pos (suc n)
      → EndsWithOne s (run_app rounds fuel app s)
  unfolding run_app thread_func_server_tcp
  run_app-EndsWithOne fuel n app s e reports children = rw e (
      with_server-EndsWithOne (serve_tcp fuel) n s (λ b. serve_tcp-GivesBack b.0 b.1 fuel) reports
        children)

  start_app-EndsWithOne :
      (fuel n : ℕ) (s : State)
      → s.globals.app ≡ app_server_tcp
      → s.globals.do_send_time ≡ true
      → s.globals.children_num ≡ pos (suc n)
      → EndsWithOne s (start_app rounds fuel s)
  unfolding start_app
  start_app-EndsWithOne fuel n s app reports children =
      Ends.bind_total _ _ _ (os_app_init s) _ (app_init-Even s) λ rc s1 (even, same).
        let even1 : Limit s.trace s1 = (minus_one, even) in
        Ends.branch _ _ (is_zero rc) _ _ s1
          (λ _.
            Ends.branch _ _ (get_configured s1.globals.app) _ _ s1
              (λ _.
                Ends.bind _ _ _ (run_app rounds fuel s1.globals.app s1) _
                  (run_app-EndsWithOne fuel n s1.globals.app s1
                    (subst (λ g. g.app ≡ app_server_tcp) (sym same) app) (cc) (cc))
                  λ rc' s' (d, held). (d, Even-Owns d 0 s.trace s1.trace s'.trace even held))
              λ _. even1)
          λ _. even1

  -- If `setsockopt` succeeds and `bind` never returns a positive number, `main`, called with
  -- accepted settings that `getopt_long` knows, in either form, that select server-tcp, with reports
  -- and at least one child to make, makes no fault, also in the processes that it forks or clones.
  -- When it returns, there is at most one descriptor among all that the process opened and did not
  -- close, and every buffer is freed.
  pub main-EndsWithOne :
      (fuel n : ℕ) (name : List ℕ) (xs : List (Bool × Setting)) (s : State)
      → AllAccepted env.configured xs
      → AllOffered xs
      → let g = apply_all env.configured xs s.globals in
        g.app ≡ app_server_tcp
        → g.do_send_time ≡ true
        → g.children_num ≡ pos (suc n)
        → EndsWithOne s (main rounds fuel (Arguments.words (name ∷ all_written xs)) s)
          × EndsWithOne s (main rounds fuel (Arguments.getopt (all_got xs) []) s)
  main-EndsWithOne fuel n name xs s accepted offered app reports children =
      let starts = main-start_app rounds fuel name xs s accepted offered in
      let ends =
        start_app-EndsWithOne fuel n (record s { globals = apply_all env.configured xs s.globals })
          app reports children in
      (rw starts.0 ends, rw starts.1 ends)
