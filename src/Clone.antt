-- ===== src/Clone.antt =====
-- Cloning the virtual machine: os/posix/clone_posix.c, os/posix/clone_unikraft.c and
-- os/minios/clone.c.
use cloning_apps.Base.{
  ℕ, ℤ, pos, false, ◌*◌, ◌==◌, ◌==ℤ◌, if◌then◌else◌, is_zero, to_u32, minus_one, minus_einval,
  minus_enomem,
}
use cloning_apps.System.{
  Env, posix, unikraft, minios, malloc, free, clone, get_self_id, Cmd, pure, ◌>>=◌, ◌>>◌, call,
  get_globals, put_globals, get_platform,
}

module _ ⦃env : Env⦄ where
  unfoldable pub os_clone_posix : ℕ → Cmd ℤ
  os_clone_posix nr_children = pure minus_one

  -- Only the parent forks and clones.
  unfoldable pub forbid_cloning : Cmd (Unit {0})
  forbid_cloning = do g ← get_globals; put_globals (record g { do_fork = false; do_clone = false })

  -- The two hypervisor builds differ in the code that a child gets.
  unfoldable pub os_clone_guest : ℤ → ℕ → Cmd ℤ
  unfolding forbid_cloning
  os_clone_guest child_code nr_children = if nr_children == 0 then pure minus_einval else do
    ids ← call (malloc (2 * nr_children))
    if ids.ptr == 0 then pure minus_enomem else do
      r ← call (clone nr_children)
      rc ←
          (if is_zero r.value
            then pure (pos 0)
            else if r.value ==ℤ pos 1
            then forbid_cloning >> pure child_code
            else pure minus_one)
      call (free ids.ptr)
      pure rc

  -- os/posix/clone_unikraft.c: a child gets 0, as the parent does.
  unfoldable pub os_clone_unikraft : ℕ → Cmd ℤ
  unfolding os_clone_guest
  os_clone_unikraft = os_clone_guest (pos 0)

  -- os/minios/clone.c: a child gets 1.
  unfoldable pub os_clone_minios : ℕ → Cmd ℤ
  unfolding os_clone_guest
  os_clone_minios = os_clone_guest (pos 1)

  unfoldable pub os_clone : ℕ → Cmd ℤ
  unfolding os_clone_posix os_clone_unikraft os_clone_minios
  os_clone nr_children = elim get_platform [
    | posix ↦ os_clone_posix nr_children
    | unikraft ↦ os_clone_unikraft nr_children
    | minios ↦ os_clone_minios nr_children
  ]

  abbrev pub os_get_self_id_posix : Cmd ℕ
  os_get_self_id_posix = pure 0

  -- os/posix/clone_unikraft.c, and alike os/minios/clone.c
  abbrev pub os_get_self_id_unikraft : Cmd ℕ
  os_get_self_id_unikraft = do r ← call get_self_id; pure (to_u32 r.value)

  unfoldable pub os_get_self_id : Cmd ℕ
  os_get_self_id = elim get_platform [ posix ↦ os_get_self_id_posix | _ ↦ os_get_self_id_unikraft ]
