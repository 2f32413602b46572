-- ===== src/Cmdline/Options.antt =====
-- What `os_parse_args` of os/posix/cmdline.c leaves in the global variables.
use cloning_apps.Base.{
  ℕ, ℤ, pos, ◌≡◌, true, false, List, [], ◌∷◌, arith, is_neg, is_pos, ◌==◌, minus_one,
}
use cloning_apps.System.{Env, State}
use cloning_apps.Globals.{Globals}
use cloning_apps.System.Ends
use cloning_apps.System.Ends.{Ends, Never}
use cloning_apps.Cmdline.{set_app}
use cloning_apps.Cmdline.Posix.{parse_posix_option, parse_posix_loop, os_parse_args_posix}

abbrev pub Any : State → Type 0
Any _ = Unit {0}

-- A number of children, and a pause.
abbrev pub Valid : Globals → Type 0
Valid g = (is_pos g.children_num ≡ true) × (is_neg g.sleep_between_clones_msec ≡ false)

module _ ⦃env : Env⦄ where
  set_app-Valid :
      (status : ℤ) (name : List ℕ) (s : State)
      → Valid s.globals
      → Ends (λ _ s'. Valid s'.globals) Any (set_app status name s)
  set_app-Valid status name s v = ground arith

  parse_posix_option-Valid :
      (rc : ℤ) (opt : ℕ) (optarg : List ℕ) (s : State)
      → Valid s.globals
      → Ends (λ _ s'. Valid s'.globals) Any (parse_posix_option rc opt optarg s)
  unfolding parse_posix_option
  parse_posix_option-Valid rc opt optarg s v =
      let P : ℤ → State → Type 0 = λ _ s'. Valid s'.globals in
      Ends.branch P Any (opt == b'h') _ _ s (λ _. tt)
        λ _.
          Ends.branch P Any (opt == b'a') _ _ s
            (λ _.
              Ends.bind (λ _ s'. Valid s'.globals) Any P (set_app minus_one optarg s) _
                (set_app-Valid minus_one optarg s v) λ _ s' v'. v')
            λ _.
              Ends.branch P Any (opt == b't') _ _ s (λ _. v)
                λ _.
                  Ends.branch P Any (opt == b'f') _ _ s (λ _. v)
                    λ _.
                      Ends.branch P Any (opt == b'x') _ _ s (λ _. v)
                        λ _.
                          Ends.branch P Any (opt == b'c') _ _ s (λ _. ground arith)
                            λ _.
                              Ends.branch P Any (opt == b's') _ _ s (λ _. ground arith)
                                λ _. Ends.branch P Any (opt == b'm') _ _ s (λ _. v) λ _. v

  parse_posix_loop-Valid :
      (rc : ℤ) (options : List (ℕ × List ℕ)) (s : State)
      → Valid s.globals
      → Ends (λ _ s'. Valid s'.globals) Any (parse_posix_loop rc options s)
  unfolding parse_posix_loop
  parse_posix_loop-Valid rc [] s v = v
  parse_posix_loop-Valid rc ((opt, optarg) ∷ more) s v =
      Ends.bind (λ _ s'. Valid s'.globals) Any _ (parse_posix_option rc opt optarg s) _
        (parse_posix_option-Valid rc opt optarg s v)
        λ rc' s' v'. parse_posix_loop-Valid rc' more s' v'

  -- If `os_parse_args` of the POSIX build returns, it returns 0, and there is at least one child
  -- and a pause that is not negative, given that it was so before; else it leaves by `exit`.
  pub os_parse_args_posix-Valid :
      (options : List (ℕ × List ℕ)) (operands : List (List ℕ)) (s : State)
      → Valid s.globals
      → Ends (λ rc s'. (rc ≡ pos 0) × Valid s'.globals) Any (os_parse_args_posix options operands s)
  unfolding os_parse_args_posix
  os_parse_args_posix-Valid options operands s v =
      Ends.bind (λ _ s'. Valid s'.globals) Any _ (parse_posix_loop (pos 0) options s) _
        (parse_posix_loop-Valid (pos 0) options s v) λ rc s' v'. ground arith
