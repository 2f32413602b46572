-- ===== src/Cmdline/MiniOs.antt =====
-- `os_parse_args` of os/minios/cmdline.c.
use cloning_apps.Base.{
  ℕ, ℤ, zero, suc, pos, true, Option, none, some, List, ◌+◌, ltb, if◌then◌else◌, is_pos, codes,
  get_elem?, length,
}
use cloning_apps.System.{
  Env, Cmd, pure, exited, fault, out_of_fuel, ◌>>=◌, ◌>>◌, get_globals, put_globals,
}
use cloning_apps.Cmdline.{scan_int, or_keep, is_option, set_app, max_argv_num}

module _ ⦃env : Env⦄ where
  -- `argv[i]` on Mini-OS, where the array of 16 pointers is zero behind the arguments. Behind the
  -- array nothing can be read.
  unfoldable pub argument : List (List ℕ) → ℕ → Cmd (Option (List ℕ))
  argument argv i = elim (get_elem? argv i) [
    | some s ↦ pure (some s)
    | none ↦ if ltb i max_argv_num then pure none else fault
  ]

  -- The same where the pointer is followed, which fails for NULL.
  unfoldable pub text_argument : List (List ℕ) → ℕ → Cmd (List ℕ)
  text_argument argv i = do a ← argument argv i; elim a [ none ↦ fault | some s ↦ pure s ]

  -- One round of the loop of the Mini-OS `os_parse_args`; the result is the next `i`.
  unfoldable pub parse_minios_argument : List (List ℕ) → ℕ → List ℕ → Cmd ℕ
  parse_minios_argument argv i arg =
      if is_option arg (codes "-h") (codes "--help")
      then exited (pos 0)
      else if is_option arg (codes "-a") (codes "--app")
      then (do name ← text_argument argv (i + 1); set_app (pos 0) name; pure (i + 2))
      else if is_option arg (codes "-t") (codes "--send-time")
      then (do g ← get_globals; put_globals (record g { do_send_time = true }); pure (i + 1))
      else if is_option arg (codes "-f") (codes "--fork")
      then (do g ← get_globals; put_globals (record g { do_fork = true }); pure (i + 1))
      else if is_option arg (codes "-x") (codes "--clone")
      then (do g ← get_globals; put_globals (record g { do_clone = true }); pure (i + 1))
      else if is_option arg (codes "-c") (codes "--children")
      then (do
        s ← text_argument argv (i + 1)
        g ← get_globals
        let n = or_keep (scan_int s) g.children_num
        put_globals (record g { children_num = n })
        if is_pos n then pure (i + 2) else exited (pos 0))
      else if is_option arg (codes "-s") (codes "--sleep")
      then (do
        s ← text_argument argv (i + 1)
        g ← get_globals
        let n = or_keep (scan_int s) g.sleep_between_clones_msec
        put_globals (record g { sleep_between_clones_msec = n })
        pure (i + 2))
      else if is_option arg (codes "-m") (codes "--memory")
      then (do
        s ← argument argv (i + 1)
        g ← get_globals
        put_globals (record g { memory_str = s })
        pure (i + 2))
      else pure (i + 1)

  -- The loop, with fuel.
  unfoldable pub parse_minios_loop : ℕ → List (List ℕ) → ℕ → Cmd ℤ
  parse_minios_loop zero argv i = out_of_fuel
  parse_minios_loop (suc fuel) argv i = elim (get_elem? argv i) [
    | none ↦ pure (pos 0)
    | some arg ↦ do i' ← parse_minios_argument argv i arg; parse_minios_loop fuel argv i'
  ]

  unfoldable pub os_parse_args_minios : List (List ℕ) → Cmd ℤ
  os_parse_args_minios argv = parse_minios_loop (length argv + 1) argv 1
