-- ===== src/Main.antt =====
-- `main` of main.c, and `threaded_main_wrapper` of os/minios/main.c, which calls it on Mini-OS.
pub mod Dispatch
pub mod Lifetime
pub mod Halting
use cloning_apps.Base.{
  ℕ, ℤ, pos, List, ◌∷◌, ◌-◌, if◌then◌else◌, is_zero, minus_einval, minus_enomem, to_i32, ◌==◌,
  codes, map_c_strings,
}
use cloning_apps.Globals.{
  App, app_none, app_counter, app_memory_overhead, app_children, app_sleeper, app_server_tcp,
  app_server_udp, app_files, app_fuzz, app_measure_fork,
}
use cloning_apps.System.{
  Env, minios, create_thread, Cmd, pure, exited, ◌>>=◌, ◌>>◌, call, get_globals, get_platform,
  get_configured,
}
use cloning_apps.Boot.{os_app_init}
use cloning_apps.Cmdline.{max_argv_num, cmdline_tokenize}
use cloning_apps.Cmdline.Posix.{os_parse_args_posix}
use cloning_apps.Cmdline.MiniOs.{os_parse_args_minios}
use cloning_apps.Servers.{
  thread_func_server_tcp, thread_func_counter, thread_func_children, thread_func_server_udp,
  thread_func_sleeper,
}
use cloning_apps.Files.{thread_func_files}
use cloning_apps.Benchmarks.{thread_func_measure_fork, thread_func_memory_overhead}
use cloning_apps.Fuzz.{thread_func_fuzz}

-- What `main` is called with: the arguments of a Mini-OS build, or what `getopt_long` makes of
-- those of another build.
pub data Arguments : Type 0 where
  words : List (List ℕ) → Arguments
  getopt : List (ℕ × List ℕ) → List (List ℕ) → Arguments

module _ ⦃env : Env⦄ (rounds fuel : ℕ) where
  -- The `switch` of `main`. An application that the build leaves out is no case of it.
  unfoldable pub run_app : App → Cmd ℤ
  run_app app_none = pure minus_einval
  run_app app_counter = thread_func_counter rounds fuel
  run_app app_memory_overhead = thread_func_memory_overhead fuel
  run_app app_children = thread_func_children rounds fuel
  run_app app_sleeper = thread_func_sleeper fuel
  run_app app_server_tcp = thread_func_server_tcp rounds fuel
  run_app app_server_udp = thread_func_server_udp rounds fuel
  run_app app_files = thread_func_files rounds fuel
  run_app app_fuzz = thread_func_fuzz fuel
  run_app app_measure_fork = thread_func_measure_fork rounds fuel

  unfoldable pub os_parse_args : Arguments → Cmd ℤ
  os_parse_args (words argv) = os_parse_args_minios argv
  os_parse_args (getopt options operands) = os_parse_args_posix options operands

  -- `main` behind `os_parse_args`
  unfoldable pub start_app : Cmd ℤ
  start_app = do
    rc ← os_app_init
    if is_zero rc
        then (do
          g ← get_globals
          if get_configured g.app
              then (do rc ← run_app g.app; pure (to_i32 rc))
              else pure minus_einval)
        else pure rc

  unfoldable pub main : Arguments → Cmd ℤ
  main args = do rc ← os_parse_args args; if is_zero rc then start_app else pure rc

  -- `cmdline` is the text that the hypervisor gives to the guest.
  unfoldable pub threaded_main_wrapper : List ℕ → Cmd (Unit {0})
  threaded_main_wrapper cmdline = do
    let tokens = cmdline_tokenize cmdline (max_argv_num - 1)
    main (words (codes "cloning-apps" ∷ map_c_strings tokens.text tokens.argv))
    exited (pos 0)

  -- `app_main`: the code. The thread that it creates runs `threaded_main_wrapper`.
  unfoldable pub app_main : Cmd ℤ
  app_main = do t ← call create_thread; pure (if t.ptr == 0 then minus_enomem else pos 0)
