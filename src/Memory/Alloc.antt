-- ===== src/Memory/Alloc.antt =====
-- The page allocators of the three builds: os/posix/mem_posix.c, os/posix/mem_unikraft.c and
-- os/minios/mem.c.
use Prim.Native.Nat.{bit_and}
use cloning_apps.Base.{
  ℕ, ℤ, zero, suc, pos, Bool, Option, none, some, ◌+◌, ◌-◌, ◌*◌, ◌/◌, ◌%◌, ◌^◌, ◌==◌, not, ltb,
  if◌then◌else◌, minus_one, minus_einval, minus_enomem, to_u64,
}
use cloning_apps.System.{
  Env, posix, unikraft, minios, get_page_size, alloc_pages, free_pages, mmap, munmap, Cmd, pure,
  fault, out_of_fuel, ◌>>=◌, ◌>>◌, call, get_platform, stale_int,
}
use cloning_apps.Memory.{store_bytes, write_memory, read_memory}

-- `__builtin_ctz` and `__builtin_ffs` of the low 32 bits, and `IS_POWER_OF_TWO`
unfoldable pub trailing_zeros : ℕ → ℕ → ℕ
trailing_zeros zero n = 0
trailing_zeros (suc width) n =
    let rest = trailing_zeros width (n / 2) in if n % 2 == 1 then 0 else suc rest

abbrev pub builtin_ffs : ℕ → ℕ
builtin_ffs n = if n % 2 ^ 32 == 0 then 0 else suc (trailing_zeros 32 (n % 2 ^ 32))

abbrev pub is_power_of_two : ℕ → Bool
is_power_of_two x = bit_and x ((x + 2 ^ 64 - 1) % 2 ^ 64) == 0

module _ ⦃env : Env⦄ where
  -- os/posix/mem_posix.c. The allocators return the code and what `*pstart` then holds.
  unfoldable pub os_alloc_pages_posix : ℕ → Cmd (ℤ × Option ℕ)
  os_alloc_pages_posix pages_num = do
    size ← call get_page_size
    r ← call (mmap ((to_u64 size.value * pages_num) % 2 ^ 64))
    pure (if r.ptr == 0 then (minus_enomem, none) else (pos 0, some r.ptr))

  -- os/posix/mem_unikraft.c. A success leaves `rc` unassigned.
  unfoldable pub os_alloc_pages_unikraft : ℕ → Cmd (ℤ × Option ℕ)
  os_alloc_pages_unikraft pages_num = do
    r ← call (alloc_pages pages_num)
    pure (if r.ptr == 0 then (minus_enomem, none) else (stale_int, some r.ptr))

  -- os/minios/mem.c. The kernel is asked for a power of two by its exponent.
  unfoldable pub os_alloc_pages_minios : ℕ → Cmd (ℤ × Option ℕ)
  os_alloc_pages_minios pages_num =
      if not (is_power_of_two pages_num)
      then pure (minus_one, none)
      else if pages_num % 2 ^ 32 == 0
      then fault
      else do
        r ← call (alloc_pages (trailing_zeros 32 (pages_num % 2 ^ 32)))
        pure (if r.ptr == 0 then (minus_enomem, none) else (pos 0, some r.ptr))

  unfoldable pub os_alloc_pages : ℕ → Cmd (ℤ × Option ℕ)
  os_alloc_pages pages_num = elim get_platform [
    | posix ↦ os_alloc_pages_posix pages_num
    | unikraft ↦ os_alloc_pages_unikraft pages_num
    | minios ↦ os_alloc_pages_minios pages_num
  ]

  -- The test that the three versions of `os_free_pages` begin with.
  unfoldable pub is_page_aligned : ℕ → Cmd Bool
  is_page_aligned start = do
    size ← call get_page_size
    pure (bit_and start ((to_u64 size.value + 2 ^ 64 - 1) % 2 ^ 64) == 0)

  unfoldable pub os_free_pages_posix : ℕ → ℕ → Cmd ℤ
  os_free_pages_posix start pages_num = do
    aligned ← is_page_aligned start
    if aligned
        then (do
          size ← call get_page_size
          r ← call (munmap start ((to_u64 size.value * pages_num) % 2 ^ 64))
          pure r.value)
        else pure minus_einval

  unfoldable pub os_free_pages_unikraft : ℕ → ℕ → Cmd ℤ
  os_free_pages_unikraft start pages_num = do
    aligned ← is_page_aligned start
    if aligned then (do call (free_pages start pages_num); pure (pos 0)) else pure minus_einval

  unfoldable pub os_free_pages_minios : ℕ → ℕ → Cmd ℤ
  os_free_pages_minios start pages_num = do
    aligned ← is_page_aligned start
    if aligned
        then (do call (free_pages start (builtin_ffs pages_num)); pure (pos 0))
        else pure minus_einval

  unfoldable pub os_free_pages : ℕ → ℕ → Cmd ℤ
  os_free_pages start pages_num = elim get_platform [
    | posix ↦ os_free_pages_posix start pages_num
    | unikraft ↦ os_free_pages_unikraft start pages_num
    | minios ↦ os_free_pages_minios start pages_num
  ]

  -- The loop of os/posix/mem_unikraft.c from the given order on: the order at which it ends. The
  -- shift `1 << order` of an `int` is undefined from 31 on.
  unfoldable pub probe_unikraft : ℕ → ℕ → Cmd ℕ
  probe_unikraft zero order = out_of_fuel
  probe_unikraft (suc fuel) order =
      if ltb order 31
      then (do
        r ← call (alloc_pages (2 ^ order))
        aligned ← is_page_aligned r.ptr
        if aligned
            then (if r.ptr == 0 then pure order else (do
              memory ← read_memory
              write_memory (store_bytes 8 r.ptr order memory)
              call (free_pages r.ptr (2 ^ order))
              probe_unikraft fuel (order + 1)))
            else fault)
      else fault

  -- From the test of `order` on. The result has the code, and what `*pstart` and `*ppages_num` hold
  -- if the code is 0. The last allocation is not tested.
  unfoldable pub take_unikraft : ℕ → Cmd (ℤ × Option (ℕ × ℕ))
  take_unikraft order = if order == 0 then pure (minus_one, none) else (do
    r ← call (alloc_pages (2 ^ (order - 1)))
    pure (pos 0, some (r.ptr, 2 ^ (order - 1))))

  unfoldable pub os_alloc_max_unikraft : ℕ → Cmd (ℤ × Option (ℕ × ℕ))
  os_alloc_max_unikraft fuel = probe_unikraft fuel 0 >>= take_unikraft

  -- The loop of os/minios/mem.c, where the kernel is asked by the exponent.
  unfoldable pub probe_minios : ℕ → ℕ → Cmd ℕ
  probe_minios zero order = out_of_fuel
  probe_minios (suc fuel) order = do
    r ← call (alloc_pages order)
    if r.ptr == 0 then pure order else (do
      memory ← read_memory
      write_memory (store_bytes 8 r.ptr order memory)
      call (free_pages r.ptr order)
      probe_minios fuel (order + 1))

  unfoldable pub take_minios : ℕ → Cmd (ℤ × Option (ℕ × ℕ))
  take_minios order = if order == 0 then pure (minus_one, none) else (do
    r ← call (alloc_pages (order - 1))
    if ltb (order - 1) 31 then pure (pos 0, some (r.ptr, 2 ^ (order - 1))) else fault)

  unfoldable pub os_alloc_max_minios : ℕ → Cmd (ℤ × Option (ℕ × ℕ))
  os_alloc_max_minios fuel = probe_minios fuel 0 >>= take_minios

  -- The POSIX version is not written yet.
  unfoldable pub os_alloc_max_contiguous_memory : ℕ → Cmd (ℤ × Option (ℕ × ℕ))
  os_alloc_max_contiguous_memory fuel = elim get_platform [
    | posix ↦ pure (minus_one, none)
    | unikraft ↦ os_alloc_max_unikraft fuel
    | minios ↦ os_alloc_max_minios fuel
  ]

  abbrev pub os_free_max_posix : ℕ → ℕ → Cmd ℤ
  os_free_max_posix start pages_num = pure minus_one

  abbrev pub os_free_max_unikraft : ℕ → ℕ → Cmd ℤ
  os_free_max_unikraft start pages_num = os_free_pages start pages_num

  abbrev pub os_free_max_minios : ℕ → ℕ → Cmd ℤ
  os_free_max_minios start pages_num = os_free_pages start pages_num

  unfoldable pub os_free_max_contiguous_memory : ℕ → ℕ → Cmd ℤ
  os_free_max_contiguous_memory start pages_num = elim get_platform [
    | posix ↦ os_free_max_posix start pages_num
    | unikraft ↦ os_free_max_unikraft start pages_num
    | minios ↦ os_free_max_minios start pages_num
  ]
