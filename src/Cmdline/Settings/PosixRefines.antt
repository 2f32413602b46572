-- ===== src/Cmdline/Settings/PosixRefines.antt =====
-- `os_parse_args` of os/posix/cmdline.c, and the settings that it stands for.
use cloning_apps.Base.{ℤ, pos, ◌≡◌, refl, Bool, List, [], ◌∷◌, arith}
use cloning_apps.System.{Env, State, ok}
use cloning_apps.Cmdline.Posix.{parse_posix_option, parse_posix_loop, os_parse_args_posix}
use cloning_apps.Cmdline.Numbers.{scan_int-show_u64}
use cloning_apps.Cmdline.Settings.{
  Setting, app_name, send_times, forks, clones, children, pause, memory_size, apply, apply_all,
  Accepted, AllAccepted, AllOffered, got, all_got,
}

module _ ⦃env : Env⦄ where
  pub parse_posix_option-got :
      (x : Setting) (rc : ℤ) (s : State)
      → Accepted env.configured x
      → parse_posix_option rc (got x).0 (got x).1 s
        ≡ ok rc (record s { globals = apply env.configured x s.globals })
  unfolding parse_posix_option
  parse_posix_option-got (app_name n) rc s h = ground arith
  parse_posix_option-got send_times rc s h = refl
  parse_posix_option-got forks rc s h = refl
  parse_posix_option-got clones rc s h = refl
  parse_posix_option-got (children n) rc s h = rw (scan_int-show_u64 n h.1) (ground arith)
  parse_posix_option-got (pause n) rc s h = rw (scan_int-show_u64 n h) (ground arith)
  parse_posix_option-got (memory_size n) rc s h = refl

  parse_posix_loop-got :
      (xs : List (Bool × Setting)) (rc : ℤ) (s : State)
      → AllAccepted env.configured xs
      → parse_posix_loop rc (all_got xs) s
        ≡ ok rc (record s { globals = apply_all env.configured xs s.globals })
  unfolding parse_posix_loop
  parse_posix_loop-got [] rc s h = refl
  parse_posix_loop-got ((long, x) ∷ xs) rc s h =
      rw (parse_posix_option-got x rc s h.0) (parse_posix_loop-got xs rc _ h.1)

  -- The POSIX `os_parse_args` returns 0 for accepted settings that its table of options offers, as
  -- `getopt_long` hands them over, and has applied them to the global variables in their order. It changes nothing else.
  pub os_parse_args_posix-apply :
      (xs : List (Bool × Setting)) (s : State)
      → AllAccepted env.configured xs
      → AllOffered xs
      → os_parse_args_posix (all_got xs) [] s
        ≡ ok (pos 0) (record s { globals = apply_all env.configured xs s.globals })
  unfolding os_parse_args_posix
  os_parse_args_posix-apply xs s h offered = rw (parse_posix_loop-got xs (pos 0) s h) refl
