-- ===== src/Main/Halting.antt =====
-- That the program comes to an end, from its command line on, when the system falls silent.
use cloning_apps.Base.{ℕ, ◌<◌, ◌≡◌, ◌⊎◌, inl, inr, Bool, List, [], ◌∷◌, arith, is_zero, sym}
use mathlib.Core.Path.{subst}
use cloning_apps.Globals.{App, app_children, app_server_tcp, app_server_udp}
use cloning_apps.System.{Env, State, get_configured}
use cloning_apps.System.Halts
use cloning_apps.System.Halts.{Halts}
use cloning_apps.System.Ends.{Ends, Never}
use cloning_apps.Boot.{os_app_init}
use cloning_apps.Servers.Returns.Calls.{Silent}
use cloning_apps.Servers.Halting.{
  SilentDatagrams, thread_func_server_tcp-Halts, thread_func_children-Halts,
  thread_func_server_udp-Halts,
}
use cloning_apps.Cmdline.Settings.{
  Setting, apply_all, AllAccepted, AllOffered, all_written, all_got,
}
use cloning_apps.Main.{Arguments, run_app, start_app, main}
use cloning_apps.Main.Dispatch.{main-start_app}

-- The applications that serve a port until a call fails, touch no memory and add nothing up.
abbrev pub IsServer : App → Type 0
IsServer app = (app ≡ app_server_tcp) ⊎ (app ≡ app_children) ⊎ (app ≡ app_server_udp)

module _ ⦃env : Env⦄ (n : ℕ) (silent : Silent env n) (rounds fuel : ℕ) (enough_rounds : n < rounds)
    (enough : n < fuel) where
  run_app-Halts :
      (app : App) (s : State)
      → SilentDatagrams env n
      → IsServer app
      → Halts (run_app rounds fuel app s)
  unfolding run_app
  run_app-Halts app s no_datagrams (inl e) =
      rw e (thread_func_server_tcp-Halts n silent rounds fuel enough_rounds enough s)
  run_app-Halts app s no_datagrams (inr (inl e)) =
      rw e (thread_func_children-Halts n silent rounds fuel enough_rounds enough s)
  run_app-Halts app s no_datagrams (inr (inr e)) =
      rw e (thread_func_server_udp-Halts n silent rounds fuel enough_rounds enough no_datagrams s)

  app_init-Same : (s : State) → Ends (λ _ s'. s'.globals ≡ s.globals) Never (os_app_init s)
  unfolding os_app_init
  app_init-Same s = ground arith

  start_app-Halts :
      (s : State)
      → ((s1 : State) → s1.globals ≡ s.globals → Halts (run_app rounds fuel s1.globals.app s1))
      → Halts (start_app rounds fuel s)
  unfolding start_app
  start_app-Halts s runs = Halts.bind_total _ (os_app_init s) _ (app_init-Same s) λ rc s1 same.
      Halts.branch (is_zero rc) _ _ s1
        (λ _.
          Halts.branch (get_configured s1.globals.app) _ _ s1
            (λ _. Halts.bind (run_app rounds fuel s1.globals.app s1) _ (runs s1 same) λ _ _. tt)
            λ _. tt)
        λ _. tt

  -- `main` with the settings `xs`, in either form.
  abbrev BothHalt : List ℕ → List (Bool × Setting) → State → Type 0
  BothHalt name xs s =
      Halts (main rounds fuel (Arguments.words (name ∷ all_written xs)) s)
      × Halts (main rounds fuel (Arguments.getopt (all_got xs) []) s)

  settings-BothHalt :
      (name : List ℕ) (xs : List (Bool × Setting)) (s : State)
      → AllAccepted env.configured xs
      → AllOffered xs
      → Halts (start_app rounds fuel (record s { globals = apply_all env.configured xs s.globals }))
      → BothHalt name xs s
  settings-BothHalt name xs s accepted offered halts =
      let starts = main-start_app rounds fuel name xs s accepted offered in
      (rw starts.0 halts, rw starts.1 halts)

  -- If from `n` calls on no connection comes and nothing can be received, also no datagram, then
  -- `n + 1` rounds for each loop are enough for `main`, called with accepted settings that `getopt_long` knows, in
  -- either form, that select server-tcp, children or server-udp: it comes to an end, also in the
  -- processes that it forks or clones, and makes no fault.
  pub main-Halts :
      (name : List ℕ) (xs : List (Bool × Setting)) (s : State)
      → SilentDatagrams env n
      → AllAccepted env.configured xs
      → AllOffered xs
      → IsServer (apply_all env.configured xs s.globals).app
      → Halts (main rounds fuel (Arguments.words (name ∷ all_written xs)) s)
        × Halts (main rounds fuel (Arguments.getopt (all_got xs) []) s)
  main-Halts name xs s no_datagrams accepted offered app =
      settings-BothHalt name xs s accepted offered (
        start_app-Halts (record s { globals = apply_all env.configured xs s.globals })
          λ s1 same.
            run_app-Halts s1.globals.app s1 no_datagrams
              (subst (λ g. IsServer g.app) (sym same) app))
