-- ===== src/System.antt =====
-- The machine that the C code runs on: one process that calls an operating system.
-- The operating system is not part of the sources. It is the parameter `Env`, which answers each
-- call as it likes, knowing all the calls before it. A run records every call with its answer.
pub mod Ends
pub mod Halts
pub mod Ledger
use cloning_apps.Base.{ℕ, ℤ, Bool, List, ◌∷◌}
use cloning_apps.Globals.{App, Globals}

-- The builds that the sources select by `#ifdef` and by file.
pub data Platform : Type 0 where
  posix unikraft minios : Platform

-- `SOCK_STREAM` and `SOCK_DGRAM`
pub data SockType : Type 0 where
  stream dgram : SockType

-- `struct sockaddr_in`, in host byte order
pub record SockAddr : Type 0 where
  pub addr : ℕ
  pub port : ℕ

-- `struct timeval`; `struct timespec` has nanoseconds for microseconds.
pub record Timeval : Type 0 where
  pub sec : ℤ
  pub usec : ℤ

pub record Timespec : Type 0 where
  pub sec : ℤ
  pub nsec : ℤ

-- The calls of the C library and of the kernels that the program makes. `announce` is the line that
-- the UDP server prints for a new client, and `print_line` a line with a measured time, less its newline; all other
-- printing is left out. `clock_gettime` is the
-- call for CLOCK_MONOTONIC and `clock_realtime` the one for CLOCK_REALTIME.
pub data Call : Type 0 where
  socket : SockType → Call
  reuse_addr : ℤ → Call
  recv_timeout : ℤ → Timeval → Call
  recv_timeout_ms : ℤ → ℤ → Call
  bind : ℤ → SockAddr → Call
  listen : ℤ → ℕ → Call
  accept : ℤ → Call
  getpeername : ℤ → Call
  recv : ℤ → ℕ → Call
  send : ℤ → List ℕ → Call
  recvfrom : ℤ → ℕ → Call
  sendto : ℤ → SockAddr → List ℕ → Call
  close : ℤ → Call
  malloc : ℕ → Call
  free : ℕ → Call
  gettimeofday : Call
  clock_gettime : Call
  clock_realtime : Call
  monotonic_clock : Call
  inet_aton : List ℕ → Call
  netdev_get : Call
  netdev_gateway : Call
  ip4addr_aton : Call
  minios_gateway : Call
  fork : Call
  clone : ℕ → Call
  get_self_id : Call
  nanosleep : Timespec → Call
  msleep : ℕ → Call
  announce : SockAddr → Call
  print_line : List ℕ → Call
  append_file : List ℕ → Call
  print_file : ℕ → List ℕ → Call
  close_file : ℕ → Call
  open_file : List ℕ → Bool → Call
  write : ℤ → List ℕ → Call
  get_page_size : Call
  alloc_pages : ℕ → Call
  free_pages : ℕ → ℕ → Call
  mmap : ℕ → Call
  munmap : ℕ → ℕ → Call
  start_networking : Call
  pthread_create : Call
  pthread_setname : Call
  pthread_cancel : Call
  pthread_join : Call
  create_thread : Call
  wait_event : Call
  asprintf : List ℕ → Call
  harness : Call
  xs_write : Call
  xs_watch_path : Call
  xs_read : Call
  xs_wait_event : Call
  xs_unwatch : Call

-- What a call hands back: its return value, or the pointer that it returns, `errno`, and what it
-- writes through its pointer arguments. A call uses the fields that it has.
pub record Reply : Type 0 where
  pub value : ℤ
  pub ptr : ℕ
  pub errno : ℕ
  pub bytes : List ℕ
  pub peer : SockAddr
  pub time : Timeval
  pub spec : Timespec

pub record Event : Type 0 where
  pub made : Call
  pub reply : Reply

-- Newest first.
abbrev pub Trace : Type 0
Trace = List Event

abbrev pub event : Call → Reply → Event
event c r = record { made = c; reply = r }

-- `configured` tells which applications the build includes, CONFIG_CLONING_APP_*. `stale_int` and
-- `stale_word` are what a local variable holds that was never assigned.
pub record Env : Type 0 where
  pub answer : Trace → Call → Reply
  pub platform : Platform
  pub configured : App → Bool
  pub stale_int : ℤ
  pub stale_word : ℕ

-- Memory is given by bytes.
pub record State : Type 0 where
  pub trace : Trace
  pub globals : Globals
  pub memory : ℕ → ℕ

-- How a run ends: it returns, it leaves by `exit`, it does what C leaves undefined or fails an
-- `assert`, or it uses up the rounds that it was given.
pub data Run (A : Type 0) : Type 0 where
  ok : A → State → Run A
  exited : ℤ → State → Run A
  fault : State → Run A
  out_of_fuel : State → Run A

abbrev pub Cmd : Type 0 → Type 0
Cmd A = State → Run A

abbrev pub pure : {A : Type 0} → A → Cmd A
pure a s = ok a s

module _ {A B : Type 0} where
  abbrev pub and_then : Run A → (A → Cmd B) → Run B
  and_then (ok a s) k = k a s
  and_then (exited n s) k = exited n s
  and_then (fault s) k = fault s
  and_then (out_of_fuel s) k = out_of_fuel s

  infixl 5 ◌>>=◌ ◌>>◌
  abbrev pub ◌>>=◌ : Cmd A → (A → Cmd B) → Cmd B
  m >>= k = λ s. and_then (m s) k

  abbrev pub ◌>>◌ : Cmd A → Cmd B → Cmd B
  m >> k = m >>= λ _. k

-- One call of the operating system.
abbrev pub call : ⦃env : Env⦄ → Call → Cmd Reply
call ⦃env⦄ c s = let r = env.answer s.trace c in ok r (record s { trace = event c r ∷ s.trace })

abbrev pub get_globals : Cmd Globals
get_globals s = ok s.globals s

abbrev pub put_globals : Globals → Cmd (Unit {0})
put_globals g s = ok tt (record s { globals = g })

abbrev pub get_platform : ⦃env : Env⦄ → Platform
get_platform ⦃env⦄ = env.platform

abbrev pub get_configured : ⦃env : Env⦄ → App → Bool
get_configured ⦃env⦄ = env.configured

abbrev pub stale_int : ⦃env : Env⦄ → ℤ
stale_int ⦃env⦄ = env.stale_int

abbrev pub stale_word : ⦃env : Env⦄ → ℕ
stale_word ⦃env⦄ = env.stale_word
