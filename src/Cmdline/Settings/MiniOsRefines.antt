-- ===== src/Cmdline/Settings/MiniOsRefines.antt =====
-- `os_parse_args` of os/minios/cmdline.c, and the settings that it stands for.
use cloning_apps.Base.{
  ℕ, ℤ, zero, suc, pos, ◌+◌, ◌<◌, ◌≤◌, ◌≡◌, ◌≢◌, refl, sym, ap, ◌∙◌, Bool, true, false, some, none,
  List, [], ◌∷◌, ◌++◌, append_assoc, append-nil, length, length-append, get_elem?, arith, show_u64,
  codes,
}
use cloning_apps.Globals.{app_none}
use cloning_apps.System.{Env, State, ok}
use cloning_apps.Cmdline.{set_app, string_to_app}
use cloning_apps.Cmdline.MiniOs.{
  argument, text_argument, parse_minios_argument, parse_minios_loop, os_parse_args_minios,
}
use cloning_apps.Cmdline.Numbers.{scan_int-show_u64}
use cloning_apps.Cmdline.Settings.{
  Setting, app_name, send_times, forks, clones, children, pause, memory_size, apply, apply_all,
  Accepted, AllAccepted, flag, operand, all_written,
}

pub get_elem?-append :
    (before : List (List ℕ)) (w : List ℕ) (rest : List (List ℕ))
    → get_elem? (before ++ w ∷ rest) (length before) ≡ some w
get_elem?-append [] w rest = refl
get_elem?-append (x ∷ before) w rest = get_elem?-append before w rest

get_elem?-append_next :
    (before : List (List ℕ)) (v w : List ℕ) (rest : List (List ℕ))
    → get_elem? (before ++ v ∷ w ∷ rest) (length before + 1) ≡ some w
get_elem?-append_next [] v w rest = refl
get_elem?-append_next (x ∷ before) v w rest =
    ap (get_elem? (x ∷ (before ++ v ∷ w ∷ rest))) e ∙ get_elem?-append_next before v w rest
  where
    e : suc (length before) + 1 ≡ suc (length before + 1)
    e = omega arith

get_elem?-end : (before : List (List ℕ)) → get_elem? before (length before) ≡ none
get_elem?-end [] = refl
get_elem?-end (x ∷ before) = get_elem?-end before

module _ ⦃env : Env⦄ where
  -- The word behind an option.
  module _ (before : List (List ℕ)) (v w : List ℕ) (rest : List (List ℕ)) (s : State) where
    argument-next : argument (before ++ v ∷ w ∷ rest) (length before + 1) s ≡ ok (some w) s
    unfolding argument
    argument-next = rw (argument, get_elem?-append_next before v w rest) refl

    pub text_argument-next : text_argument (before ++ v ∷ w ∷ rest) (length before + 1) s ≡ ok w s
    unfolding text_argument
    text_argument-next = rw argument-next refl

  set_app-known :
      (status : ℤ) (n : List ℕ) (s : State)
      → string_to_app env.configured n ≢ app_none
      → set_app status n s
        ≡ ok tt (record s { globals = record s.globals { app = string_to_app env.configured n } })
  set_app-known status n s h = ground arith

  -- A round that reads one option, the first of whose words stands at `i`.
  pub parse_minios_argument-flag :
      (long : Bool) (x : Setting) (before rest : List (List ℕ)) (s : State)
      → Accepted env.configured x
      → parse_minios_argument
          (before ++ flag long x ∷ (operand x ++ rest))
          (length before)
          (flag long x)
          s
        ≡ ok
            (length before + suc (length (operand x)))
            (record s { globals = apply env.configured x s.globals })
  unfolding parse_minios_argument
  parse_minios_argument-flag true (app_name n) before rest s h =
      rw (text_argument-next before (codes "--app") n rest s, set_app-known (pos 0) n s h) refl
  parse_minios_argument-flag true send_times before rest s h = refl
  parse_minios_argument-flag true forks before rest s h = refl
  parse_minios_argument-flag true clones before rest s h = refl
  parse_minios_argument-flag true (children n) before rest s h =
      rw
        (
          text_argument-next before (codes "--children") (show_u64 n) rest s,
          scan_int-show_u64 n h.1,
        )
        (ground arith)
  parse_minios_argument-flag true (pause n) before rest s h =
      rw (text_argument-next before (codes "--sleep") (show_u64 n) rest s, scan_int-show_u64 n h)
        refl
  parse_minios_argument-flag true (memory_size n) before rest s h =
      rw (argument-next before (codes "--memory") n rest s) refl
  parse_minios_argument-flag false (app_name n) before rest s h =
      rw (text_argument-next before (codes "-a") n rest s, set_app-known (pos 0) n s h) refl
  parse_minios_argument-flag false send_times before rest s h = refl
  parse_minios_argument-flag false forks before rest s h = refl
  parse_minios_argument-flag false clones before rest s h = refl
  parse_minios_argument-flag false (children n) before rest s h =
      rw (text_argument-next before (codes "-c") (show_u64 n) rest s, scan_int-show_u64 n h.1)
        (ground arith)
  parse_minios_argument-flag false (pause n) before rest s h =
      rw (text_argument-next before (codes "-s") (show_u64 n) rest s, scan_int-show_u64 n h) refl
  parse_minios_argument-flag false (memory_size n) before rest s h =
      rw (argument-next before (codes "-m") n rest s) refl

  parse_minios_loop-written :
      (fuel : ℕ) (xs : List (Bool × Setting)) (before : List (List ℕ)) (s : State)
      → AllAccepted env.configured xs
      → length xs < fuel
      → parse_minios_loop fuel (before ++ all_written xs) (length before) s
        ≡ ok (pos 0) (record s { globals = apply_all env.configured xs s.globals })
  unfolding parse_minios_loop
  parse_minios_loop-written zero xs before s h enough = absurd (omega (arith, enough))
  parse_minios_loop-written (suc fuel) [] before s h enough =
      rw (append-nil before, parse_minios_loop, get_elem?-end before) refl
  parse_minios_loop-written (suc fuel) ((long, x) ∷ xs) before s h enough =
      let words = flag long x ∷ operand x in
      let whole = sym (append_assoc before words (all_written xs)) in
      rw
        (
          parse_minios_loop,
          get_elem?-append before (flag long x) (operand x ++ all_written xs),
          parse_minios_argument-flag long x before (all_written xs) s h.0,
          ← length-append before words,
          whole,
        )
        (parse_minios_loop-written fuel xs (before ++ words) _ h.1 (omega (arith, enough)))

  pub length-all_written : (xs : List (Bool × Setting)) → length xs ≤ length (all_written xs)
  length-all_written [] = omega arith
  length-all_written ((long, x) ∷ xs) =
      omega (arith, length-append (operand x) (all_written xs), length-all_written xs)

  -- The Mini-OS `os_parse_args` returns 0 for accepted settings, written behind the name of the
  -- program with short or long option names, and has applied them to the global variables in their
  -- order. It changes nothing else, and the rounds that it is given are enough.
  pub os_parse_args_minios-apply :
      (name : List ℕ) (xs : List (Bool × Setting)) (s : State)
      → AllAccepted env.configured xs
      → os_parse_args_minios (name ∷ all_written xs) s
        ≡ ok (pos 0) (record s { globals = apply_all env.configured xs s.globals })
  unfolding os_parse_args_minios
  os_parse_args_minios-apply name xs s h =
      parse_minios_loop-written (length (name ∷ all_written xs) + 1) xs (name ∷ []) s h
        (omega (arith, length-all_written xs))
