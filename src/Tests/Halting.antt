-- ===== src/Tests/Halting.antt =====
-- The theorems on what comes to an end, applied to machines that fall silent.
use cloning_apps.Base.{
  inl, refl, Bool, false, true, List, [], ◌∷◌, arith, codes, ltb, length, minus_one, pos,
  if◌then◌else◌,
}
use cloning_apps.System.{Env, Trace, Call, Reply, recv, recvfrom}
use cloning_apps.System.Halts.{Halts}
use cloning_apps.Cmdline.{string_to_app}
use cloning_apps.Cmdline.Settings.{Setting, AllAccepted, AllOffered, all_written, all_got}
use cloning_apps.Servers.Returns.Calls.{Silent}
use cloning_apps.Servers.Halting.{SilentDatagrams}
use cloning_apps.Main.{Arguments, main}
use cloning_apps.Main.Halting.{main-Halts}
use cloning_apps.Tests.{received, calm_answer, nothing, calm, start}

-- A machine that falls silent after twelve calls.
abbrev quiet_answer : Trace → Call → Reply
quiet_answer t (recv d k) =
    if ltb (length t) 12 then received t else record nothing { value = minus_one }
quiet_answer t (recvfrom d k) = record nothing {
  value = if ltb (length t) 12 then pos 5 else minus_one;
}
quiet_answer t c = calm_answer t c

abbrev quiet : Env
quiet = record calm { answer = quiet_answer }

quiet-Silent : Silent quiet 12
quiet-Silent = record { no_accept = λ t l h. ground arith; no_recv = λ t d k h. ground arith }

quiet-SilentDatagrams : SilentDatagrams quiet 12
quiet-SilentDatagrams t d k h = ground arith

-- server-tcp, without reports: the prologue succeeds, and the server runs until the machine falls
-- silent.
abbrev two_settings : List (Bool × Setting)
two_settings = (false, Setting.app_name (codes "server-tcp")) ∷ (true, Setting.pause 5) ∷ []

two_settings-AllAccepted : AllAccepted (λ _. true) two_settings
unfolding string_to_app
two_settings-AllAccepted = (ground arith, (omega arith, tt))

two_settings-AllOffered : AllOffered two_settings
two_settings-AllOffered = (refl, (refl, tt))

main-Halts_example :
    Halts
      (main ⦃env = quiet⦄ 13 13 (Arguments.words (codes "apps" ∷ all_written two_settings)) start)
    × Halts (main ⦃env = quiet⦄ 13 13 (Arguments.getopt (all_got two_settings) []) start)
unfolding string_to_app
main-Halts_example =
    main-Halts ⦃env = quiet⦄ 12 quiet-Silent 13 13 (omega arith) (omega arith) (codes "apps")
      two_settings start quiet-SilentDatagrams two_settings-AllAccepted two_settings-AllOffered
      (inl refl)
