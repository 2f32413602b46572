-- ===== src/Main/Dispatch.antt =====
-- `main` from the command line to the application: main.c with both versions of `os_parse_args`,
-- and os/minios/main.c with `cmdline_tokenize`.
use cloning_apps.Base.{
  ℕ, zero, suc, pos, ◌≤◌, ◌≡◌, refl, ap, ◌∙◌, Bool, List, [], ◌∷◌, ◌++◌, minus_one, ◌-◌, arith,
  length, take, codes, map_c_strings,
}
use cloning_apps.System.{Env, State, exited, and_then}
use cloning_apps.Cmdline.{cmdline_tokenize, max_argv_num}
use cloning_apps.Cmdline.Tokens.{NoNul, words, cmdline_tokenize-words}
use cloning_apps.Cmdline.Settings.{
  Setting, apply, apply_all, AllAccepted, AllOffered, flag, operand, all_written, got, all_got,
}
use cloning_apps.Cmdline.Settings.Rejects.{Rejected, os_parse_args-Rejected}
use cloning_apps.Cmdline.Settings.MiniOsRefines.{os_parse_args_minios-apply}
use cloning_apps.Cmdline.Settings.PosixRefines.{os_parse_args_posix-apply}
use cloning_apps.Main.{Arguments, os_parse_args, start_app, main, threaded_main_wrapper}

take_all : (n : ℕ) (ws : List (List ℕ)) → length ws ≤ n → take n ws ≡ ws
take_all zero [] h = refl
take_all (suc n) [] h = refl
take_all zero (w ∷ ws) h = absurd (omega (arith, h))
take_all (suc n) (w ∷ ws) h = ap (λ vs. w ∷ vs) (take_all n ws (omega (arith, h)))

module _ ⦃env : Env⦄ (rounds fuel : ℕ) where
  main-start_app-words :
      (name : List ℕ) (xs : List (Bool × Setting)) (s : State)
      → AllAccepted env.configured xs
      → main rounds fuel (Arguments.words (name ∷ all_written xs)) s
        ≡ start_app rounds fuel (record s { globals = apply_all env.configured xs s.globals })
  unfolding main os_parse_args
  main-start_app-words name xs s h = rw (os_parse_args_minios-apply name xs s h) refl

  -- For accepted settings that the table of options of os/posix/cmdline.c offers, `main` starts the
  -- application with the settings applied to the global variables, and does so alike with the
  -- arguments of a Mini-OS build, in short or long form, and with those of a build that has
  -- `getopt_long`.
  pub main-start_app :
      (name : List ℕ) (xs : List (Bool × Setting)) (s : State)
      → AllAccepted env.configured xs
      → AllOffered xs
      → let applied = record s { globals = apply_all env.configured xs s.globals } in
        (main rounds fuel (Arguments.words (name ∷ all_written xs)) s
          ≡ start_app rounds fuel applied)
        × (main rounds fuel (Arguments.getopt (all_got xs) []) s ≡ start_app rounds fuel applied)
  unfolding main os_parse_args
  main-start_app name xs s h offered =
      (main-start_app-words name xs s h, rw (os_parse_args_posix-apply xs s h offered) refl)

  -- A setting that names an application that the build does not have, or no child to make, ends the
  -- program, whatever follows it: `main` exits with 0 on Mini-OS, and with -1 in a build that has
  -- `getopt_long`, if its table of options offers the settings before it. These, accepted ones, and the
  -- setting itself were stored, and no call was made.
  pub main-Rejected :
      (name : List ℕ) (xs : List (Bool × Setting)) (long : Bool) (x : Setting) (s : State)
      (rest : List (List ℕ)) (more : List (ℕ × List ℕ)) (operands : List (List ℕ))
      → AllAccepted env.configured xs
      → AllOffered xs
      → Rejected env.configured x
      → let stored = record s {
        globals = apply env.configured x (apply_all env.configured xs s.globals);
      } in
        (main rounds fuel
            (Arguments.words (name ∷ (all_written xs ++ flag long x ∷ (operand x ++ rest))))
            s
          ≡ exited (pos 0) stored)
        × (main rounds fuel (Arguments.getopt (all_got xs ++ got x ∷ more) operands) s
            ≡ exited minus_one stored)
  unfolding main os_parse_args
  main-Rejected name xs long x s rest more operands h offered bad =
      let both = os_parse_args-Rejected name xs long x s rest more operands h bad in
      (rw both.0 refl, rw both.1 refl)

  -- If the text that the hypervisor gives to a Mini-OS guest has no NUL, and its words are those of
  -- accepted settings and at most 15, the guest starts the application with these settings applied
  -- to the global variables, and exits with 0 when the application returns.
  pub threaded_main_wrapper-start_app :
      (cmdline : List ℕ) (xs : List (Bool × Setting)) (s : State)
      → NoNul cmdline
      → words cmdline ≡ all_written xs
      → length (all_written xs) ≤ max_argv_num - 1
      → AllAccepted env.configured xs
      → threaded_main_wrapper rounds fuel cmdline s
        ≡ and_then
            (start_app rounds fuel (record s { globals = apply_all env.configured xs s.globals }))
            (λ _. exited (pos 0))
  unfolding threaded_main_wrapper
  threaded_main_wrapper-start_app cmdline xs s plain same few h =
      let argv : map_c_strings (cmdline_tokenize cmdline 15).text (cmdline_tokenize cmdline 15).argv
          ≡ all_written xs =
        cmdline_tokenize-words cmdline 15 plain
        ∙ ap (take 15) same
        ∙ take_all 15 (all_written xs) few in
      rw (argv, main-start_app-words (codes "cloning-apps") xs s h) refl
