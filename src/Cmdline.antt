-- ===== src/Cmdline.antt =====
-- Command lines: the application names of main.c and apps.h, `cmdline_tokenize` of
-- os/minios/cmdline.c, and what the two versions of `os_parse_args` read numbers with.
pub mod MiniOs
pub mod Posix
pub mod Tokens
pub mod Names
pub mod Numbers
pub mod Settings
pub mod Options
use cloning_apps.Base.{
  ℕ, ℤ, zero, suc, pos, Bool, true, false, Option, none, some, List, [], ◌∷◌, ◌++◌, ◌+◌, ◌-◌, ◌*◌,
  ◌==◌, ◌&&◌, ◌||◌, not, ltb, leb, if◌then◌else◌, is_neg, is_zero, is_pos, minus_one, codes,
  bytes_eq, get_elem?, length, sub_ℕ, to_i32,
}
use cloning_apps.Globals.{
  App, app_none, app_counter, app_memory_overhead, app_children, app_sleeper, app_server_tcp,
  app_server_udp, app_files, app_fuzz, app_measure_fork, Globals,
}
use cloning_apps.System.{
  Env, Cmd, ok, pure, exited, fault, out_of_fuel, ◌>>=◌, ◌>>◌, get_globals, put_globals,
  get_configured,
}

-- `APP_NAME_COUNTER` and the other names
abbrev pub app_name_counter : List ℕ
app_name_counter = codes "counter"

abbrev pub app_name_memory_overhead : List ℕ
app_name_memory_overhead = codes "memory-overhead"

abbrev pub app_name_children : List ℕ
app_name_children = codes "children"

abbrev pub app_name_sleeper : List ℕ
app_name_sleeper = codes "sleeper"

abbrev pub app_name_server_tcp : List ℕ
app_name_server_tcp = codes "server-tcp"

abbrev pub app_name_server_udp : List ℕ
app_name_server_udp = codes "server-udp"

abbrev pub app_name_files : List ℕ
app_name_files = codes "files"

abbrev pub app_name_fuzz : List ℕ
app_name_fuzz = codes "fuzz"

abbrev pub app_name_measure_fork : List ℕ
app_name_measure_fork = codes "measure-fork"

-- `struct app_entry app_entries[]`, as it stands with every application configured.
abbrev pub app_entries : List (List ℕ × App)
app_entries =
    (app_name_counter, app_counter)
    ∷ (app_name_memory_overhead, app_memory_overhead)
    ∷ (app_name_children, app_children)
    ∷ (app_name_sleeper, app_sleeper)
    ∷ (app_name_server_tcp, app_server_tcp)
    ∷ (app_name_server_udp, app_server_udp)
    ∷ (app_name_files, app_files)
    ∷ (app_name_fuzz, app_fuzz)
    ∷ (app_name_measure_fork, app_measure_fork)
    ∷ []

-- The loop of `string_to_app` over the entries that the build includes.
unfoldable pub find_app : (App → Bool) → List ℕ → List (List ℕ × App) → App
find_app configured s [] = app_none
find_app configured s ((name, app) ∷ entries) =
    if bytes_eq s name && configured app then app else find_app configured s entries

unfoldable pub string_to_app : (App → Bool) → List ℕ → App
unfolding find_app
string_to_app configured s = find_app configured s app_entries

-- `argv` from `argc` on, as offsets into the text, and the text from `i` on, both as
-- `cmdline_tokenize` leaves them.
pub record Tokenized : Type 0 where
  pub argv : List ℕ
  pub text : List ℕ

-- `if (token_start) argv[argc++] = token_start;`
abbrev pub end_token : Option ℕ → List ℕ
end_token none = []
end_token (some k) = k ∷ []

abbrev pub put_text : ℕ → Tokenized → Tokenized
put_text c r = record r { text = c ∷ r.text }

abbrev pub put_token : ℕ → Tokenized → Tokenized
put_token k r = record r { argv = k ∷ r.argv }

-- `if (!token_start) token_start = &str[i];`
abbrev pub start_at : Option ℕ → ℕ → ℕ
start_at none i = i
start_at (some k) i = k

abbrev pub is_blank : ℕ → Bool
is_blank c = (c == 32) || (c == 9)

-- The loop of `cmdline_tokenize` at index `i`, over the rest of the text.
unfoldable pub tokenize_loop : ℕ → ℕ → ℕ → Option ℕ → List ℕ → Tokenized
tokenize_loop argv_num argc i token_start [] = record { argv = end_token token_start; text = [] }
tokenize_loop argv_num argc i token_start (c ∷ rest) =
    if not (ltb argc argv_num) || (c == 0)
    then record { argv = end_token token_start; text = c ∷ rest }
    else if is_blank c
    then elim token_start [
      | none ↦ put_text 0 (tokenize_loop argv_num argc (i + 1) none rest)
      | some k ↦ put_token k (put_text 0 (tokenize_loop argv_num (argc + 1) (i + 1) none rest))
    ]
    else put_text c (tokenize_loop argv_num argc (i + 1) (some (start_at token_start i)) rest)

unfoldable pub cmdline_tokenize : List ℕ → ℕ → Tokenized
unfolding tokenize_loop
cmdline_tokenize str argv_num = tokenize_loop argv_num 0 0 none str

-- `MAX_ARGV_NUM` of os/minios/main.c
abbrev pub max_argv_num : ℕ
max_argv_num = 16

-- `sscanf(s, "%d", &n)`: the number, or nothing where no digit is found.
abbrev digit_at : ℕ → Bool
digit_at c = leb 48 c && leb c 57

unfoldable pub scan_digits : ℕ → List ℕ → ℕ
scan_digits acc [] = acc
scan_digits acc (c ∷ s) =
    let rest = scan_digits (acc * 10 + (c - 48)) s in if digit_at c then rest else acc

unfoldable pub scan_unsigned : List ℕ → Option ℕ
unfolding scan_digits
scan_unsigned [] = none
scan_unsigned (c ∷ s) = if digit_at c then some (scan_digits 0 (c ∷ s)) else none

unfoldable pub scan_int : List ℕ → Option ℤ
unfolding scan_unsigned
scan_int [] = none
scan_int (c ∷ s) =
    let rest = scan_int s in
    if (c == 32) || (leb 9 c && leb c 13)
    then rest
    else if c == b'-'
    then (elim (scan_unsigned s) [ none ↦ none | some n ↦ some (to_i32 (sub_ℕ 0 n)) ])
    else if c == b'+'
    then (elim (scan_unsigned s) [ none ↦ none | some n ↦ some (to_i32 (pos n)) ])
    else elim (scan_unsigned (c ∷ s)) [ none ↦ none | some n ↦ some (to_i32 (pos n)) ]

-- What a variable holds after `sscanf`: it keeps its value where nothing was converted.
abbrev pub or_keep : Option ℤ → ℤ → ℤ
or_keep none old = old
or_keep (some n) old = n

-- `atoi(s)`
abbrev pub atoi : List ℕ → ℤ
atoi s = or_keep (scan_int s) (pos 0)

-- Whether the argument is one of the two spellings of an option.
abbrev pub is_option : List ℕ → List ℕ → List ℕ → Bool
is_option arg short long = bytes_eq arg short || bytes_eq arg long

-- What `string_to_app` found is stored, and an unknown name ends the process with the given status.
abbrev pub set_app : ⦃env : Env⦄ → ℤ → List ℕ → Cmd (Unit {0})
set_app status name = do
  g ← get_globals
  put_globals (record g { app = string_to_app get_configured name })
  elim (string_to_app get_configured name) [ app_none ↦ exited status | _ ↦ pure tt ]
