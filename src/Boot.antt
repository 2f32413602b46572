-- ===== src/Boot.antt =====
-- What the two boot.c have: the start of the system for an application, and its exit.
use cloning_apps.Base.{ℤ, pos}
use cloning_apps.System.{
  Env, State, Platform, posix, unikraft, minios, start_networking, Cmd, pure, exited, ◌>>◌, call,
  get_platform,
}
use cloning_apps.System.Ends.{Ends}

module _ ⦃env : Env⦄ where
  abbrev pub os_app_init_minios : Cmd ℤ
  os_app_init_minios = do call start_networking; pure (pos 0)

  abbrev pub os_app_init_posix : Cmd ℤ
  os_app_init_posix = pure (pos 0)

  unfoldable pub os_app_init : Cmd ℤ
  os_app_init = elim get_platform [ minios ↦ os_app_init_minios | _ ↦ os_app_init_posix ]

  -- `do_exit`, which has no status.
  abbrev pub os_exit_minios : {A : Type 0} → ℤ → Cmd A
  os_exit_minios status s = exited (pos 0) s

  abbrev pub os_exit_posix : {A : Type 0} → ℤ → Cmd A
  os_exit_posix status s = exited status s

  unfoldable pub os_exit : {A : Type 0} → ℤ → Cmd A
  os_exit status s = elim get_platform [
    | minios ↦ os_exit_minios status s
    | _ ↦ os_exit_posix status s
  ]

  -- `os_exit` leaves the state as it is.
  pub os_exit-Ends :
      {A : Type 0} (P : A → State → Type 0) (Q : State → Type 0) (status : ℤ) (s : State)
      → Q s
      → Ends P Q (os_exit status s)
  unfolding os_exit
  os_exit-Ends {A} P Q status s q = on env.platform
    where
      on :
          (b : Platform)
          → Ends {A = A} P Q (elim b [ minios ↦ exited (pos 0) s | _ ↦ exited status s ])
      on posix = q
      on unikraft = q
      on minios = q
