-- ===== src/Cmdline/Settings/Rejects.antt =====
-- What both versions of `os_parse_args` do with a setting that they reject.
use cloning_apps.Base.{
  ℕ, ℤ, zero, suc, pos, ◌<◌, ◌≡◌, refl, sym, ap, Bool, true, false, List, [], ◌∷◌, ◌++◌,
  append_assoc, length, length-append, arith, show_u64, codes, minus_one,
}
use mathlib.Core.Path.{subst}
use cloning_apps.Globals.{App, app_none}
use cloning_apps.System.{Env, State, exited}
use cloning_apps.Cmdline.{set_app, string_to_app}
use cloning_apps.Cmdline.MiniOs.{parse_minios_argument, parse_minios_loop, os_parse_args_minios}
use cloning_apps.Cmdline.Posix.{parse_posix_option, parse_posix_loop, os_parse_args_posix}
use cloning_apps.Cmdline.Numbers.{scan_int-show_u64}
use cloning_apps.Cmdline.Settings.{
  Setting, app_name, send_times, forks, clones, children, pause, memory_size, apply, apply_all,
  AllAccepted, flag, operand, all_written, got, all_got,
}
use cloning_apps.Cmdline.Settings.MiniOsRefines.{
  get_elem?-append, text_argument-next, parse_minios_argument-flag, length-all_written,
}
use cloning_apps.Cmdline.Settings.PosixRefines.{parse_posix_option-got}

-- An application that the build does not have, and no child to make.
abbrev pub Rejected : (App → Bool) → Setting → Type 0
Rejected configured (app_name s) = string_to_app configured s ≡ app_none
Rejected configured (children n) = n ≡ 0
Rejected configured _ = ⊥

module _ ⦃env : Env⦄ where
  set_app-unknown :
      (status : ℤ) (n : List ℕ) (s : State)
      → string_to_app env.configured n ≡ app_none
      → set_app status n s
        ≡ exited status
            (record s { globals = record s.globals { app = string_to_app env.configured n } })
  set_app-unknown status n s h = ground arith

  parse_minios_argument-Rejected :
      (long : Bool) (x : Setting) (before rest : List (List ℕ)) (s : State)
      → Rejected env.configured x
      → parse_minios_argument
          (before ++ flag long x ∷ (operand x ++ rest))
          (length before)
          (flag long x)
          s
        ≡ exited (pos 0) (record s { globals = apply env.configured x s.globals })
  unfolding parse_minios_argument
  parse_minios_argument-Rejected true (app_name n) before rest s h =
      rw (text_argument-next before (codes "--app") n rest s, set_app-unknown (pos 0) n s h) refl
  parse_minios_argument-Rejected false (app_name n) before rest s h =
      rw (text_argument-next before (codes "-a") n rest s, set_app-unknown (pos 0) n s h) refl
  parse_minios_argument-Rejected true (children n) before rest s h =
      rw
        (
          text_argument-next before (codes "--children") (show_u64 n) rest s,
          scan_int-show_u64 n (omega (arith, h)),
          h,
        )
        refl
  parse_minios_argument-Rejected false (children n) before rest s h =
      rw
        (
          text_argument-next before (codes "-c") (show_u64 n) rest s,
          scan_int-show_u64 n (omega (arith, h)),
          h,
        )
        refl
  parse_minios_argument-Rejected long send_times before rest s h = absurd h
  parse_minios_argument-Rejected long forks before rest s h = absurd h
  parse_minios_argument-Rejected long clones before rest s h = absurd h
  parse_minios_argument-Rejected long (pause n) before rest s h = absurd h
  parse_minios_argument-Rejected long (memory_size n) before rest s h = absurd h

  parse_posix_option-Rejected :
      (x : Setting) (rc : ℤ) (s : State)
      → Rejected env.configured x
      → parse_posix_option rc (got x).0 (got x).1 s
        ≡ exited minus_one (record s { globals = apply env.configured x s.globals })
  unfolding parse_posix_option
  parse_posix_option-Rejected (app_name n) rc s h = rw (set_app-unknown minus_one n s h) refl
  parse_posix_option-Rejected (children n) rc s h =
      rw (scan_int-show_u64 n (omega (arith, h)), h) refl
  parse_posix_option-Rejected send_times rc s h = absurd h
  parse_posix_option-Rejected forks rc s h = absurd h
  parse_posix_option-Rejected clones rc s h = absurd h
  parse_posix_option-Rejected (pause n) rc s h = absurd h
  parse_posix_option-Rejected (memory_size n) rc s h = absurd h

  parse_minios_loop-Rejected :
      (fuel : ℕ) (xs : List (Bool × Setting)) (before rest : List (List ℕ)) (long : Bool)
      (x : Setting) (s : State)
      → AllAccepted env.configured xs
      → Rejected env.configured x
      → length xs < fuel
      → parse_minios_loop fuel
          (before ++ (all_written xs ++ flag long x ∷ (operand x ++ rest)))
          (length before)
          s
        ≡ exited
            (pos 0)
            (record s { globals = apply env.configured x (apply_all env.configured xs s.globals) })
  unfolding parse_minios_loop
  parse_minios_loop-Rejected zero xs before rest long x s h bad enough =
      absurd (omega (arith, enough))
  parse_minios_loop-Rejected (suc fuel) [] before rest long x s h bad enough =
      rw
        (
          parse_minios_loop,
          get_elem?-append before (flag long x) (operand x ++ rest),
          parse_minios_argument-Rejected long x before rest s bad,
        )
        refl
  parse_minios_loop-Rejected (suc fuel) ((l, y) ∷ xs) before rest long x s h bad enough =
      let tail = flag long x ∷ (operand x ++ rest) in
      let words = flag l y ∷ operand y in
      let whole : before ++ (all_written ((l, y) ∷ xs) ++ tail)
          ≡ before ++ flag l y ∷ (operand y ++ (all_written xs ++ tail)) =
        ap (λ w. before ++ flag l y ∷ w) (append_assoc (operand y) (all_written xs) tail) in
      subst
        (λ argv.
          parse_minios_loop (suc fuel) argv (length before) s
          ≡ exited (pos 0) (record s {
            globals = apply env.configured x (apply_all env.configured ((l, y) ∷ xs) s.globals);
          }))
        (sym whole)
        (rw
          (
            parse_minios_loop,
            get_elem?-append before (flag l y) (operand y ++ (all_written xs ++ tail)),
            parse_minios_argument-flag l y before (all_written xs ++ tail) s h.0,
            ← length-append before words,
            sym (append_assoc before words (all_written xs ++ tail)),
          )
          (parse_minios_loop-Rejected fuel xs (before ++ words) rest long x _ h.1 bad
            (omega (arith, enough))))

  parse_posix_loop-Rejected :
      (xs : List (Bool × Setting)) (more : List (ℕ × List ℕ)) (x : Setting) (rc : ℤ) (s : State)
      → AllAccepted env.configured xs
      → Rejected env.configured x
      → parse_posix_loop rc (all_got xs ++ got x ∷ more) s
        ≡ exited minus_one
            (record s { globals = apply env.configured x (apply_all env.configured xs s.globals) })
  unfolding parse_posix_loop
  parse_posix_loop-Rejected [] more x rc s h bad = rw (parse_posix_option-Rejected x rc s bad) refl
  parse_posix_loop-Rejected ((l, y) ∷ xs) more x rc s h bad =
      rw (parse_posix_option-got y rc s h.0) (parse_posix_loop-Rejected xs more x rc _ h.1 bad)

  -- A setting that names an application that the build does not have, or no child to make, ends
  -- both versions of `os_parse_args`, whatever follows it: the Mini-OS version exits with 0, and the
  -- POSIX version with -1. The accepted settings before it and the setting itself were stored, and
  -- no call was made.
  pub os_parse_args-Rejected :
      (name : List ℕ) (xs : List (Bool × Setting)) (long : Bool) (x : Setting) (s : State)
      (rest : List (List ℕ)) (more : List (ℕ × List ℕ)) (operands : List (List ℕ))
      → AllAccepted env.configured xs
      → Rejected env.configured x
      → let stored = record s {
        globals = apply env.configured x (apply_all env.configured xs s.globals);
      } in
        (os_parse_args_minios (name ∷ (all_written xs ++ flag long x ∷ (operand x ++ rest))) s
          ≡ exited (pos 0) stored)
        × (os_parse_args_posix (all_got xs ++ got x ∷ more) operands s ≡ exited minus_one stored)
  unfolding os_parse_args_minios os_parse_args_posix
  os_parse_args-Rejected name xs long x s rest more operands h bad = (
    parse_minios_loop-Rejected _ xs (name ∷ []) rest long x s h bad (
        omega (
          arith,
          length-all_written xs,
          length-append (all_written xs) (flag long x ∷ (operand x ++ rest)),
        )),
    rw (parse_posix_loop-Rejected xs more x (pos 0) s h bad) refl,
  )
