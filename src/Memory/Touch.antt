-- ===== src/Memory/Touch.antt =====
-- What `mem_touch_pages` of common/mem.c leaves in memory.
use cloning_apps.Base.{
  ℕ, zero, suc, pos, ◌+◌, ◌*◌, ◌/◌, ◌%◌, ◌^◌, ◌≤◌, ◌<◌, ◌≡◌, ◌⊎◌, inl, inr, refl, ap₂, ◌∙◌, sym,
  true, false, none, arith, ◌==◌, Bool-cases, if◌then◌else◌, eq→==, ==→eq,
}
use native.Mathlib.Nat.{mod-eq_of_lt}
use cloning_apps.System.{Env, State, ok}
use cloning_apps.Memory.{
  store_bytes, load_bytes, page_address, write_pages, check_pages, mem_touch_pages,
  ensure_page_size, read_clock,
}

-- `v` fits in `w` bytes.
abbrev Fits : ℕ → ℕ → Type 0
Fits zero v = v ≡ 0
Fits (suc w) v = Fits w (v / 256)

store_bytes-outside :
    (w a v q : ℕ) (m : ℕ → ℕ) → (q < a) ⊎ (a + w ≤ q) → store_bytes w a v m q ≡ m q
unfolding store_bytes
store_bytes-outside zero a v q m h = refl
store_bytes-outside (suc w) a v q m h =
    store_bytes-outside w (a + 1) (v / 256) q _ (omega arith) ∙ ground arith

load_bytes-store_bytes :
    (w a v : ℕ) (m : ℕ → ℕ) → Fits w v → load_bytes w a (store_bytes w a v m) ≡ v
unfolding store_bytes load_bytes
load_bytes-store_bytes zero a v m h = sym h
load_bytes-store_bytes (suc w) a v m h = ground (
  arith,
  store_bytes-outside w (a + 1) (v / 256) a (λ q. if q == a then v % 256 else m q),
  load_bytes-store_bytes w (a + 1) (v / 256) (λ q. if q == a then v % 256 else m q) h,
)

load_bytes-apart :
    (w a : ℕ) (k b v : ℕ) (m : ℕ → ℕ)
    → (a + w ≤ b) ⊎ (b + k ≤ a)
    → load_bytes w a (store_bytes k b v m) ≡ load_bytes w a m
unfolding load_bytes
load_bytes-apart zero a k b v m h = refl
load_bytes-apart (suc w) a k b v m h =
    ap₂ (λ x y. x + 256 * y) (store_bytes-outside k b v a m (omega arith))
      (load_bytes-apart w (a + 1) k b v m (omega arith))

times_lt : (j i page_size : ℕ) → j < i → j * page_size + page_size ≤ i * page_size
times_lt j i page_size h = grind arith

Fits-word : (v : ℕ) → v < 2 ^ 64 → Fits 8 v
Fits-word v h = omega arith

pub ensure_page_size-known :
    ⦃env : Env⦄ (s : State) (n : ℕ)
    → s.globals.os_page_size ≡ n
    → 0 < n
    → ensure_page_size s ≡ ok n s
unfolding ensure_page_size
ensure_page_size-known s n e h = ground arith

module _ (start page_size : ℕ) (wide : 8 ≤ page_size) where
  page_address-plain :
      (i n : ℕ)
      → i < n
      → start + n * page_size ≤ 2 ^ 64
      → page_address start page_size i ≡ start + i * page_size
  page_address-plain i n h room = mod-eq_of_lt (omega (arith, times_lt i n page_size h))

  -- A page below the ones being written keeps its word.
  write_pages-below :
      (left i j n : ℕ) (m : ℕ → ℕ)
      → i + left ≤ n
      → start + n * page_size ≤ 2 ^ 64
      → j < i
      → load_bytes 8 (start + j * page_size) (write_pages left start page_size i m)
        ≡ load_bytes 8 (start + j * page_size) m
  unfolding write_pages
  write_pages-below zero i j n m le room h = refl
  write_pages-below (suc left) i j n m le room h =
      write_pages-below left (i + 1) j n _ (omega arith) room (omega arith)
      ∙ load_bytes-apart 8 (start + j * page_size) 8 (page_address start page_size i) i m (
          inl (
            rw (page_address-plain i n (omega arith) room)
              (omega (arith, times_lt j i page_size h))))

  -- Behind the loop each page that it wrote holds its number.
  write_pages-at :
      (left i j n : ℕ) (m : ℕ → ℕ)
      → i + left ≤ n
      → start + n * page_size ≤ 2 ^ 64
      → i ≤ j
      → j < i + left
      → load_bytes 8 (start + j * page_size) (write_pages left start page_size i m) ≡ j
  unfolding write_pages
  write_pages-at zero i j n m le room h k = absurd (omega arith)
  write_pages-at (suc left) i j n m le room h k = elim (Bool-cases (i == j)) [
    | inl here ↦
        let e : i ≡ j = ==→eq i j here in
        let a = page_address-plain i n (omega arith) room in
        write_pages-below left (i + 1) j n _ (omega arith) room (omega arith)
        ∙ rw (← e, a)
            (load_bytes-store_bytes 8 (start + i * page_size) i m (Fits-word i (small i n le room)))
    | inr there ↦ write_pages-at left (i + 1) j n _ (omega arith) room (ground arith) (omega arith)
  ]
    where
      small : (i n : ℕ) → i + suc left ≤ n → start + n * page_size ≤ 2 ^ 64 → i < 2 ^ 64
      small i n le room = grind arith

  check_pages-true :
      (left i n : ℕ) (m : ℕ → ℕ)
      → i + left ≤ n
      → start + n * page_size ≤ 2 ^ 64
      → ((j : ℕ) → i ≤ j → j < i + left → load_bytes 8 (start + j * page_size) m ≡ j)
      → check_pages left start page_size i m ≡ true
  unfolding check_pages
  check_pages-true zero i n m le room h = refl
  check_pages-true (suc left) i n m le room h =
      rw
        (page_address-plain i n (omega arith) room, h i (omega arith) (omega arith), eq→== i i refl)
        (check_pages-true left (i + 1) n m (omega arith) room
          λ j lo hi. h j (omega arith) (omega arith))

  module _ ⦃env : Env⦄ where
    -- When the pages lie in the address space and have room for a word each, `mem_touch_pages`
    -- without a duration returns 0 and makes no call, and afterwards page `j` holds the number `j`.
    -- The page size is known.
    pub mem_touch_pages-ok :
        (pages_num : ℕ) (s : State) (j : ℕ)
        → s.globals.os_page_size ≡ page_size
        → start + pages_num * page_size ≤ 2 ^ 64
        → j < pages_num
        → (m : ℕ → ℕ) × (mem_touch_pages start pages_num false s
            ≡ ok (pos 0, none) (record s { memory = m }))
          × (load_bytes 8 (start + j * page_size) m ≡ j)
    unfolding mem_touch_pages read_clock
    mem_touch_pages-ok pages_num s j size room inside = (
      write_pages pages_num start page_size 0 s.memory,
      rw (
        ensure_page_size-known s page_size size (omega arith),
        check_pages-true pages_num 0 pages_num (write_pages pages_num start page_size 0 s.memory)
            (omega arith) room
            λ j lo hi. write_pages-at pages_num 0 j pages_num s.memory (omega arith) room lo hi,
      ),
      write_pages-at pages_num 0 j pages_num s.memory (omega arith) room (omega arith)
          (omega arith),
    )
