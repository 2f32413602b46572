-- ===== src/Memory.antt =====
-- Memory sizes and pages, common/mem.c. Addresses and sizes are `unsigned long`, 64 bits.
pub mod Alloc
pub mod Touch
pub mod Size
pub mod Pages
pub mod Largest
use Prim.Native.Nat.{bit_and}
use cloning_apps.Base.{
  ℕ, ℤ, zero, suc, pos, Bool, true, false, Option, none, some, List, [], ◌∷◌, ◌+◌, ◌-◌, ◌*◌, ◌/◌,
  ◌%◌, ◌^◌, ◌==◌, ◌&&◌, ◌||◌, not, ltb, leb, if◌then◌else◌, is_neg, is_zero, minus_one,
  minus_einval, minus_enomem, codes, bytes_eq, to_u64, quotient_1000,
}
use cloning_apps.System.{
  Env, State, posix, unikraft, minios, Timeval, Timespec, clock_gettime, get_page_size, alloc_pages,
  free_pages, mmap, munmap, Cmd, ok, pure, fault, out_of_fuel, ◌>>=◌, ◌>>◌, call, get_globals,
  put_globals, get_platform,
}
use cloning_apps.Time.{timersub}

-- The `*p = v` and `*p` of an `unsigned long` at the address `a`, by `w` bytes of memory.
unfoldable pub store_bytes : ℕ → ℕ → ℕ → (ℕ → ℕ) → ℕ → ℕ
store_bytes zero a v memory = memory
store_bytes (suc w) a v memory =
    store_bytes w (a + 1) (v / 256) (λ q. if q == a then v % 256 else memory q)

unfoldable pub load_bytes : ℕ → ℕ → (ℕ → ℕ) → ℕ
load_bytes zero a memory = 0
load_bytes (suc w) a memory = memory a + 256 * load_bytes w (a + 1) memory

-- `start + i * os_page_size`
abbrev pub page_address : ℕ → ℕ → ℕ → ℕ
page_address start page_size i = (start + i * page_size) % 2 ^ 64

-- The first loop of `mem_touch_pages` from page `i` on, with `left` pages to go.
unfoldable pub write_pages : ℕ → ℕ → ℕ → ℕ → (ℕ → ℕ) → ℕ → ℕ
unfolding store_bytes
write_pages zero start page_size i memory = memory
write_pages (suc left) start page_size i memory =
    write_pages left start page_size (i + 1)
      (store_bytes 8 (page_address start page_size i) i memory)

-- The second loop: whether every page still holds its number.
unfoldable pub check_pages : ℕ → ℕ → ℕ → ℕ → (ℕ → ℕ) → Bool
unfolding load_bytes
check_pages zero start page_size i memory = true
check_pages (suc left) start page_size i memory =
    (load_bytes 8 (page_address start page_size i) memory == i)
    && check_pages left start page_size (i + 1) memory

abbrev pub timeval_of : Timespec → Timeval
timeval_of ts = record { sec = ts.sec; usec = quotient_1000 ts.nsec }

-- `strtoul(s, &endptr, 10)`: the number, and the text from `endptr` on where a digit was found.
abbrev pub is_space : ℕ → Bool
is_space c = (c == 32) || (leb 9 c && leb c 13)

abbrev pub is_digit : ℕ → Bool
is_digit c = leb 48 c && leb c 57

unfoldable pub skip_spaces : List ℕ → List ℕ
skip_spaces [] = []
skip_spaces (c ∷ s) = let rest = skip_spaces s in if is_space c then rest else c ∷ s

unfoldable pub read_digits : ℕ → List ℕ → ℕ × List ℕ
read_digits acc [] = (acc, [])
read_digits acc (c ∷ s) =
    let rest = read_digits (acc * 10 + (c - 48)) s in if is_digit c then rest else (acc, c ∷ s)

-- A number that does not fit becomes the largest one, `ULONG_MAX`.
abbrev pub saturate : ℕ → ℕ
saturate n = if ltb n (2 ^ 64) then n else 2 ^ 64 - 1

unfoldable pub read_signed : List ℕ → ℕ × List ℕ
read_signed [] = (0, [])
read_signed (c ∷ s) =
    if c == b'-'
    then (if ltb (read_digits 0 s).0 (2 ^ 64)
        then ((2 ^ 64 - (read_digits 0 s).0) % 2 ^ 64, (read_digits 0 s).1)
        else (2 ^ 64 - 1, (read_digits 0 s).1))
    else if c == b'+'
    then (saturate (read_digits 0 s).0, (read_digits 0 s).1)
    else (saturate (read_digits 0 (c ∷ s)).0, (read_digits 0 (c ∷ s)).1)

unfoldable pub strtoul : List ℕ → ℕ × List ℕ
strtoul s = read_signed (skip_spaces s)

-- The factor that a unit stands for. An unknown unit counts as bytes.
unfoldable pub unit_factor : List ℕ → ℕ
unit_factor unit =
    if bytes_eq unit [] || bytes_eq unit (codes "B")
    then 1
    else if bytes_eq unit (codes "KB")
    then 1024
    else if bytes_eq unit (codes "MB")
    then 1024 * 1024
    else if bytes_eq unit (codes "GB")
    then 1024 * 1024 * 1024
    else 1

unfoldable pub memsize_str2bytes : List ℕ → ℕ
memsize_str2bytes size_str =
    let n = (strtoul size_str).0 in
    let endptr = (strtoul size_str).1 in if n == 0 then 0 else (n * unit_factor endptr) % 2 ^ 64

-- `DIV_ROUND_UP(v, d)` on `unsigned long`
unfoldable pub div_round_up : ℕ → ℕ → ℕ
div_round_up v d = ((v + d + 2 ^ 64 - 1) % 2 ^ 64) / d

module _ ⦃env : Env⦄ where
  -- `if (!os_page_size) os_page_size = os_get_page_size();`
  unfoldable pub ensure_page_size : Cmd ℕ
  ensure_page_size = do
    g ← get_globals
    if g.os_page_size == 0
        then (do
          r ← call get_page_size
          put_globals (record g { os_page_size = to_u64 r.value })
          pure (to_u64 r.value))
        else pure g.os_page_size

  -- `clock_gettime(CLOCK_MONOTONIC, &ts)`, where a duration is wanted
  unfoldable pub read_clock : Bool → Cmd (ℤ × Timespec)
  read_clock wanted = do
    if wanted
        then (do r ← call clock_gettime; pure (r.value, r.spec))
        else pure (pos 0, record { sec = pos 0; nsec = pos 0 })

  abbrev pub write_memory : (ℕ → ℕ) → Cmd (Unit {0})
  write_memory memory s = ok tt (record s { memory = memory })

  abbrev pub read_memory : Cmd (ℕ → ℕ)
  read_memory s = ok s.memory s

  -- `mem_touch_pages`. `wanted` tells whether `duration` is a pointer; the result has what it then
  -- holds.
  unfoldable pub mem_touch_pages : ℕ → ℕ → Bool → Cmd (ℤ × Option Timeval)
  mem_touch_pages start pages_num wanted = do
    page_size ← ensure_page_size
    (rc, before) ← read_clock wanted
    if is_zero rc
        then (do
          memory ← read_memory
          write_memory (write_pages pages_num start page_size 0 memory)
          (rc, after) ← read_clock wanted
          if is_zero rc
              then (do
                memory ← read_memory
                pure (
                    if check_pages pages_num start page_size 0 memory
                    then (
                      rc,
                      if wanted
                          then some (timersub (timeval_of after) (timeval_of before))
                          else none,
                    )
                    else (minus_one, none)))
              else pure (rc, none))
        else pure (rc, none)

  unfoldable pub memsize_str2pages : List ℕ → Cmd ℕ
  memsize_str2pages size_str = if memsize_str2bytes size_str == 0 then pure 0 else do
    page_size ← ensure_page_size
    if page_size == 0 then fault else pure (div_round_up (memsize_str2bytes size_str) page_size)
