-- ===== src/Globals.antt =====
-- The application enumeration of apps.h, and the program's global variables (main.c, common/mem.c).
use cloning_apps.Base.{ℕ, ℤ, pos, Bool, false, Option, none, List}

-- `enum app`
pub data App : Type 0 where
  app_none app_counter app_memory_overhead app_children app_sleeper : App
  app_server_tcp app_server_udp app_files app_fuzz app_measure_fork : App

-- The flags that the C code keeps in an `int` as 0 or 1 are Booleans here.
pub record Globals : Type 0 where
  pub app : App
  pub do_send_time : Bool
  pub do_fork : Bool
  pub do_clone : Bool
  pub children_num : ℤ
  pub sleep_between_clones_msec : ℤ
  pub memory_str : Option (List ℕ)
  pub os_page_size : ℕ

-- The values with which the process starts.
abbrev pub initial_globals : Globals
initial_globals = record {
  app = app_none;
  do_send_time = false;
  do_fork = false;
  do_clone = false;
  children_num = pos 1;
  sleep_between_clones_msec = pos 1000;
  memory_str = none;
  os_page_size = 0;
}
