-- ===== src/Cmdline/Posix.antt =====
-- `os_parse_args` of os/posix/cmdline.c.
use cloning_apps.Base.{
  ℕ, ℤ, pos, true, some, List, [], ◌∷◌, ◌==◌, if◌then◌else◌, is_neg, is_zero, is_pos, minus_one,
  length,
}
use cloning_apps.System.{Env, Cmd, pure, exited, ◌>>=◌, ◌>>◌, get_globals, put_globals}
use cloning_apps.Cmdline.{string_to_app, scan_int, atoi, set_app}

module _ ⦃env : Env⦄ where
  -- The body of the loop of the POSIX `os_parse_args` for one result of `getopt_long`: the option's
  -- character and `optarg`. The result is the new `rc`. An option that needs its argument comes
  -- with one, so NULL is read here as the empty text.
  unfoldable pub parse_posix_option : ℤ → ℕ → List ℕ → Cmd ℤ
  unfolding scan_int string_to_app
  parse_posix_option rc opt optarg =
      if opt == b'h'
      then exited (pos 0)
      else if opt == b'a'
      then (do set_app minus_one optarg; pure rc)
      else if opt == b't'
      then (do g ← get_globals; put_globals (record g { do_send_time = true }); pure rc)
      else if opt == b'f'
      then (do g ← get_globals; put_globals (record g { do_fork = true }); pure rc)
      else if opt == b'x'
      then (do g ← get_globals; put_globals (record g { do_clone = true }); pure rc)
      else if opt == b'c'
      then (do
        g ← get_globals
        put_globals (record g { children_num = atoi optarg })
        if is_pos (atoi optarg) then pure rc else exited minus_one)
      else if opt == b's'
      then (do
        g ← get_globals
        put_globals (record g { sleep_between_clones_msec = atoi optarg })
        if is_neg (atoi optarg) then exited minus_one else pure rc)
      else if opt == b'm'
      then (do g ← get_globals; put_globals (record g { memory_str = some optarg }); pure rc)
      else pure minus_one

  unfoldable pub parse_posix_loop : ℤ → List (ℕ × List ℕ) → Cmd ℤ
  unfolding parse_posix_option
  parse_posix_loop rc [] = pure rc
  parse_posix_loop rc ((opt, optarg) ∷ more) = do
    rc ← parse_posix_option rc opt optarg
    parse_posix_loop rc more

  -- `options` is what `getopt_long` returns up to its -1, and `operands` what it leaves.
  unfoldable pub os_parse_args_posix : List (ℕ × List ℕ) → List (List ℕ) → Cmd ℤ
  unfolding parse_posix_loop
  os_parse_args_posix options operands = do
    parsed ← parse_posix_loop (pos 0) options
    let rc = if length operands == 0 then parsed else minus_one
    if is_zero rc then pure rc else exited rc
