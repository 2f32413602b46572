-- ===== src/Threads.antt =====
-- The threads of os/posix/thread.c and os/minios/thread.c.
pub mod Laws
use cloning_apps.Base.{
  ℕ, ℤ, zero, suc, pos, Bool, true, false, Option, none, some, ◌==◌, if◌then◌else◌, is_zero,
  minus_enomem, minus_einval,
}
use cloning_apps.System.{
  Env, Call, malloc, free, pthread_create, pthread_setname, pthread_cancel, pthread_join,
  create_thread, wait_event, Cmd, pure, out_of_fuel, ◌>>=◌, ◌>>◌, call, stale_word,
}

-- `struct os_thread` of Mini-OS. A function is given by its number, and so are pointers.
pub record OsThread : Type 0 where
  pub func : ℕ
  pub arg : ℕ
  pub result : ℕ
  pub finished : Bool

-- `thread_func_wrapper`, where `run` is what the thread's function returns for its argument.
abbrev pub thread_func_wrapper : (ℕ → ℕ → ℕ) → OsThread → OsThread
thread_func_wrapper run t = record t { result = run t.func t.arg }

module _ ⦃env : Env⦄ where
  -- `os_thread_create` of os/posix/thread.c: the code, and `*pt` where it is assigned.
  unfoldable pub os_thread_create_posix : Cmd (ℤ × Option ℕ)
  os_thread_create_posix = do
    os_t ← call (malloc 8)
    if os_t.ptr == 0 then (do call (free os_t.ptr); pure (minus_enomem, none)) else (do
      created ← call pthread_create
      if is_zero created.value
          then (do
            named ← call pthread_setname
            if is_zero named.value
                then pure (pos 0, some os_t.ptr)
                else (do call pthread_cancel; call (free os_t.ptr); pure (named.value, none)))
          else (do call (free os_t.ptr); pure (created.value, none)))

  -- `os_thread_create` of os/minios/thread.c, with the structure that it fills.
  unfoldable pub os_thread_create_minios : ℕ → ℕ → Cmd (ℤ × Option (ℕ × OsThread))
  os_thread_create_minios func arg = do
    os_t ← call (malloc 40)
    if os_t.ptr == 0 then (do call (free os_t.ptr); pure (minus_enomem, none)) else (do
      t ← call create_thread
      if t.ptr == 0
          then (do call (free os_t.ptr); pure (minus_enomem, none))
          else pure (
            pos 0,
            some (
              os_t.ptr,
              record { func = func; arg = arg; result = stale_word; finished = false },
            ),
          ))

  -- The two versions of `os_thread_destroy` are alike; `t` is the pointer.
  unfoldable pub os_thread_destroy_posix : ℕ → Cmd ℤ
  os_thread_destroy_posix t = if t == 0 then pure minus_einval else (do call (free t); pure (pos 0))

  unfoldable pub os_thread_destroy_minios : ℕ → Cmd ℤ
  os_thread_destroy_minios t =
      if t == 0 then pure minus_einval else (do call (free t); pure (pos 0))

  unfoldable pub os_thread_wait_posix : Cmd ℤ
  os_thread_wait_posix = do r ← call pthread_join; pure r.value

  -- `os_thread_wait` of os/minios/thread.c: each wake-up tests `finished` again, as it stands at
  -- the time, `seen` after so many wake-ups.
  unfoldable pub os_thread_wait_minios : ℕ → (ℕ → OsThread) → ℕ → Cmd (ℤ × ℕ)
  os_thread_wait_minios zero seen i = out_of_fuel
  os_thread_wait_minios (suc fuel) seen i =
      if (seen i).finished
      then pure (pos 0, (seen i).result)
      else call wait_event >> os_thread_wait_minios fuel seen (suc i)
