-- ===== src/Cmdline/Settings.antt =====
-- What a command line asks for, apart from how it is written, and how it is written for each of the
-- two versions of `os_parse_args`.
pub mod PosixRefines
pub mod MiniOsRefines
pub mod Rejects
use cloning_apps.Base.{
  ℕ, ℤ, pos, ◌^◌, ◌<◌, ◌≢◌, ◌≡◌, ◌==◌, bytes_eq, Bool, true, false, some, List, [], ◌∷◌, ◌++◌,
  if◌then◌else◌, codes, show_u64,
}
use cloning_apps.Globals.{App, app_none, Globals}
use cloning_apps.Cmdline.{string_to_app}

pub data Setting : Type 0 where
  app_name : List ℕ → Setting
  send_times forks clones : Setting
  children pause : ℕ → Setting
  memory_size : List ℕ → Setting

-- A setting changes one global variable. `configured` tells which applications there are.
abbrev pub apply : (App → Bool) → Setting → Globals → Globals
apply configured (app_name s) g = record g { app = string_to_app configured s }
apply configured send_times g = record g { do_send_time = true }
apply configured forks g = record g { do_fork = true }
apply configured clones g = record g { do_clone = true }
apply configured (children n) g = record g { children_num = pos n }
apply configured (pause n) g = record g { sleep_between_clones_msec = pos n }
apply configured (memory_size s) g = record g { memory_str = some s }

abbrev pub apply_all : (App → Bool) → List (Bool × Setting) → Globals → Globals
apply_all configured [] g = g
apply_all configured ((long, x) ∷ xs) g = apply_all configured xs (apply configured x g)

-- A setting that both versions accept: a known application, at least one child, an `int`.
abbrev pub Accepted : (App → Bool) → Setting → Type 0
Accepted configured (app_name s) = string_to_app configured s ≢ app_none
Accepted configured (children n) = (0 < n) × (n < 2 ^ 31)
Accepted configured (pause n) = n < 2 ^ 31
Accepted configured _ = Unit

abbrev pub AllAccepted : (App → Bool) → List (Bool × Setting) → Type 0
AllAccepted configured [] = Unit
AllAccepted configured ((long, x) ∷ xs) = Accepted configured x × AllAccepted configured xs

-- The long or the short name of the option, and its argument if it has one.
abbrev pub flag : Bool → Setting → List ℕ
flag true (app_name s) = codes "--app"
flag false (app_name s) = codes "-a"
flag true send_times = codes "--send-time"
flag false send_times = codes "-t"
flag true forks = codes "--fork"
flag false forks = codes "-f"
flag true clones = codes "--clone"
flag false clones = codes "-x"
flag true (children n) = codes "--children"
flag false (children n) = codes "-c"
flag true (pause n) = codes "--sleep"
flag false (pause n) = codes "-s"
flag true (memory_size s) = codes "--memory"
flag false (memory_size s) = codes "-m"

abbrev pub operand : Setting → List (List ℕ)
operand (app_name s) = s ∷ []
operand (children n) = show_u64 n ∷ []
operand (pause n) = show_u64 n ∷ []
operand (memory_size s) = s ∷ []
operand _ = []

abbrev pub all_written : List (Bool × Setting) → List (List ℕ)
all_written [] = []
all_written ((long, x) ∷ xs) = flag long x ∷ (operand x ++ all_written xs)

-- What `getopt_long` returns for a setting: the option's character and its argument.
abbrev pub got : Setting → ℕ × List ℕ
got (app_name s) = (b'a', s)
got send_times = (b't', [])
got forks = (b'f', [])
got clones = (b'x', [])
got (children n) = (b'c', show_u64 n)
got (pause n) = (b's', show_u64 n)
got (memory_size s) = (b'm', s)

-- The table `long_opts` of os/posix/cmdline.c: the long options that `getopt_long` knows, and the
-- character that it returns for each. There is none for `--clone`, and no `x` among the short ones.
abbrev pub long_opts : List (List ℕ × ℕ)
long_opts =
    (codes "--help", b'h')
    ∷ (codes "--app", b'a')
    ∷ (codes "--send-time", b't')
    ∷ (codes "--fork", b'f')
    ∷ (codes "--children", b'c')
    ∷ (codes "--sleep", b's')
    ∷ (codes "--memory", b'm')
    ∷ []

abbrev pub has_option : List ℕ → ℕ → List (List ℕ × ℕ) → Bool
has_option name opt [] = false
has_option name opt ((n, c) ∷ more) = if bytes_eq n name then c == opt else has_option name opt more

-- A setting whose option is in the table, with the character of `got`.
abbrev pub Offered : Setting → Type 0
Offered x = has_option (flag true x) (got x).0 long_opts ≡ true

abbrev pub AllOffered : List (Bool × Setting) → Type 0
AllOffered [] = Unit
AllOffered ((long, x) ∷ xs) = Offered x × AllOffered xs

abbrev pub all_got : List (Bool × Setting) → List (ℕ × List ℕ)
all_got [] = []
all_got ((long, x) ∷ xs) = got x ∷ all_got xs
