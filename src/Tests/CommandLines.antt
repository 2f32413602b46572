-- ===== src/Tests/CommandLines.antt =====
-- The theorems on command lines and `main`, applied to arguments.
use cloning_apps.Base.{
  ◌≡◌, refl, Bool, true, false, List, [], ◌∷◌, ◌++◌, minus_one, arith, pos, codes, show_u64, digits,
}
use cloning_apps.Globals.{Globals, initial_globals, app_server_tcp}
use cloning_apps.System.{Env, ok, minios, exited, and_then}
use cloning_apps.Cmdline.{string_to_app}
use cloning_apps.Cmdline.Tokens.{words, words_from}
use cloning_apps.Cmdline.MiniOs.{os_parse_args_minios}
use cloning_apps.Cmdline.Posix.{os_parse_args_posix}
use cloning_apps.Cmdline.Settings.{
  Setting, AllAccepted, AllOffered, all_written, all_got, flag, operand, got,
}
use cloning_apps.Cmdline.Settings.MiniOsRefines.{os_parse_args_minios-apply}
use cloning_apps.Cmdline.Settings.PosixRefines.{os_parse_args_posix-apply}
use cloning_apps.Main.{Arguments, main, start_app, threaded_main_wrapper}
use cloning_apps.Main.Dispatch.{main-Rejected, main-start_app, threaded_main_wrapper-start_app}
use cloning_apps.Main.Lifetime.{EndsWithOne, main-EndsWithOne}
use cloning_apps.Tests.{calm, reached, reached_calls, start}

-- server-tcp with reports and two children.
abbrev three_settings : List (Bool × Setting)
three_settings =
    (false, Setting.app_name (codes "server-tcp"))
    ∷ (true, Setting.send_times)
    ∷ (false, Setting.children 2)
    ∷ []

three_settings-AllAccepted : AllAccepted (λ _. true) three_settings
unfolding string_to_app
three_settings-AllAccepted = (ground arith, (tt, ((omega arith, omega arith), tt)))

three_settings-AllOffered : AllOffered three_settings
three_settings-AllOffered = (refl, (refl, (refl, tt)))

abbrev with_settings : Globals
with_settings = record initial_globals {
  app = app_server_tcp;
  do_send_time = true;
  children_num = pos 2;
}

os_parse_args_minios-apply_example :
    os_parse_args_minios ⦃env = calm⦄
      (codes "apps"
        ∷ codes "-a"
        ∷ codes "server-tcp"
        ∷ codes "--send-time"
        ∷ codes "-c"
        ∷ show_u64 2
        ∷ [])
      start
    ≡ ok (pos 0) (record start { globals = with_settings })
unfolding string_to_app
os_parse_args_minios-apply_example =
    os_parse_args_minios-apply ⦃env = calm⦄ (codes "apps") three_settings start
      three_settings-AllAccepted

os_parse_args_posix-apply_example :
    os_parse_args_posix ⦃env = calm⦄
      ((b'a', codes "server-tcp") ∷ (b't', []) ∷ (b'c', show_u64 2) ∷ [])
      []
      start
    ≡ ok (pos 0) (record start { globals = with_settings })
unfolding string_to_app
os_parse_args_posix-apply_example =
    os_parse_args_posix-apply ⦃env = calm⦄ three_settings start three_settings-AllAccepted
      three_settings-AllOffered

main-start_app_example :
    (main ⦃env = calm⦄ 3 9
        (Arguments.words (
          codes "apps"
          ∷ codes "-a"
          ∷ codes "server-tcp"
          ∷ codes "--send-time"
          ∷ codes "-c"
          ∷ show_u64 2
          ∷ []))
        start
      ≡ start_app ⦃env = calm⦄ 3 9 (record start { globals = with_settings }))
    × (main ⦃env = calm⦄ 3 9
          (Arguments.getopt ((b'a', codes "server-tcp") ∷ (b't', []) ∷ (b'c', show_u64 2) ∷ []) [])
          start
        ≡ start_app ⦃env = calm⦄ 3 9 (record start { globals = with_settings }))
unfolding string_to_app
main-start_app_example =
    main-start_app ⦃env = calm⦄ 3 9 (codes "apps") three_settings start three_settings-AllAccepted
      three_settings-AllOffered

abbrev calm_minios : Env
calm_minios = record calm { platform = minios }

threaded_main_wrapper-start_app_example :
    threaded_main_wrapper ⦃env = calm_minios⦄ 3 9 (codes "-a server-tcp  --send-time -c 2") start
    ≡ and_then
        (start_app ⦃env = calm_minios⦄ 3 9 (record start { globals = with_settings }))
        λ _. exited (pos 0)
unfolding string_to_app words words_from show_u64 digits
threaded_main_wrapper-start_app_example =
    threaded_main_wrapper-start_app ⦃env = calm_minios⦄ 3 9
      (codes "-a server-tcp  --send-time -c 2") three_settings start (ground arith) refl
      (omega arith) three_settings-AllAccepted

main-EndsWithOne_example :
    EndsWithOne ⦃env = reached⦄ reached_calls 3 start
      (main ⦃env = reached⦄ 3 9 (Arguments.words (codes "apps" ∷ all_written three_settings)) start)
    × EndsWithOne ⦃env = reached⦄ reached_calls 3 start
        (main ⦃env = reached⦄ 3 9 (Arguments.getopt (all_got three_settings) []) start)
unfolding string_to_app
main-EndsWithOne_example =
    main-EndsWithOne ⦃env = reached⦄ reached_calls 3 9 1 (codes "apps") three_settings start
      three_settings-AllAccepted three_settings-AllOffered refl refl refl

-- No child to make, and an operand behind it.
main-Rejected_example :
    (main ⦃env = calm⦄ 3 9
        (Arguments.words (
          codes "apps"
          ∷ (all_written three_settings
              ++ flag true (Setting.children 0)
                ∷ (operand (Setting.children 0) ++ codes "x" ∷ []))))
        start
      ≡ exited (pos 0) (record start { globals = record with_settings { children_num = pos 0 } }))
    × (main ⦃env = calm⦄ 3 9
          (Arguments.getopt
            (all_got three_settings ++ got (Setting.children 0) ∷ [])
            (codes "x" ∷ []))
          start
        ≡ exited minus_one
            (record start { globals = record with_settings { children_num = pos 0 } }))
unfolding string_to_app
main-Rejected_example =
    main-Rejected ⦃env = calm⦄ 3 9 (codes "apps") three_settings true (Setting.children 0) start
      (codes "x" ∷ []) [] (codes "x" ∷ []) three_settings-AllAccepted three_settings-AllOffered refl
