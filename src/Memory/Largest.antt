-- ===== src/Memory/Largest.antt =====
-- What `os_alloc_max_contiguous_memory` finds: os/posix/mem_unikraft.c and os/minios/mem.c.
use Prim.Native.Nat.{bit_and}
use cloning_apps.Base.{
  ℕ, ℤ, zero, suc, pos, ◌+◌, ◌-◌, ◌^◌, ◌%◌, ◌≤◌, ◌<◌, ◌≡◌, ◌≢◌, refl, true, false, Option, none,
  some, [], ◌∷◌, ◌==◌, arith, inl, inr, Bool-cases, ==→eq, eq→==, lt→ltb, to_u64, minus_one,
}
use cloning_apps.System.{Env, State, Trace, alloc_pages, get_page_size}
use cloning_apps.System.Ends
use cloning_apps.System.Ends.{Ends, Never}
use cloning_apps.Memory.Alloc.{
  probe_unikraft, probe_minios, os_alloc_max_unikraft, os_alloc_max_minios, take_minios,
  take_unikraft, is_page_aligned,
}

-- An allocator that has blocks up to a size: those with an exponent below `limit`. `request` is how
-- the kernel is asked for the block of an exponent.
pub record Has (env : Env) (request : ℕ → ℕ) (limit : ℕ) : Type 0 where
  pub fits : (t : Trace) (k : ℕ) → k < limit → (env.answer t (alloc_pages (request k))).ptr ≢ 0
  pub full : (t : Trace) → (env.answer t (alloc_pages (request limit))).ptr ≡ 0

-- The blocks that are handed out begin at a page.
abbrev pub PageAligned : Env → Type 0
PageAligned env =
    (t u : Trace) (n : ℕ)
    → (bit_and (env.answer t (alloc_pages n)).ptr
          ((to_u64 (env.answer u get_page_size).value + 2 ^ 64 - 1) % 2 ^ 64)
        == 0)
      ≡ true

-- The newest call asked the kernel for pages by the number `n`, and got the block at `start`.
abbrev pub JustGot : ℕ → ℕ → Trace → Type 0
JustGot n start [] = ⊥
JustGot n start (e ∷ t) = (e.made ≡ alloc_pages n) × (e.reply.ptr ≡ start)

-- Nothing if there is no block at all, and else a block of the largest size, which is what the
-- newest call got for the exponent of that size.
abbrev pub IsLargest : (ℕ → ℕ) → ℕ → ℤ × Option (ℕ × ℕ) → State → Type 0
IsLargest request zero (rc, found) s' = (rc ≡ minus_one) × (found ≡ none)
IsLargest request (suc k) (rc, none) s' = ⊥
IsLargest request (suc k) (rc, some (start, pages_num)) s' =
    (rc ≡ pos 0) × (start ≢ 0) × (pages_num ≡ 2 ^ k) × JustGot (request k) start s'.trace

-- Whether the block of the exponent `k` is there.
tested :
    (env : Env) (request : ℕ → ℕ) (limit k : ℕ) (t : Trace)
    → Has env request limit
    → k ≤ limit
    → ((env.answer t (alloc_pages (request k))).ptr == 0) ≡ (k == limit)
tested env request limit k t has h = elim (Bool-cases (k == limit)) [
  | inl last ↦
      rw last (
        eq→== (env.answer t (alloc_pages (request k))).ptr 0 (rw (==→eq k limit last) (has.full t)))
  | inr other ↦ rw other (ground (arith, has.fits t k))
]

module _ ⦃env : Env⦄ where
  take_minios-IsLargest :
      (limit : ℕ) (s : State)
      → Has env (λ k. k) limit
      → limit ≤ 31
      → Ends (IsLargest (λ k. k) limit) Never (take_minios limit s)
  unfolding take_minios
  take_minios-IsLargest zero s has small = (refl, refl)
  take_minios-IsLargest (suc k) s has small =
      let e : suc k - 1 ≡ k = omega arith in
      let nonzero : (suc k == 0) ≡ false = ground arith in
      rw (nonzero, e, lt→ltb k 31 (omega (arith, small)))
        (refl, has.fits s.trace k (omega arith), refl, (refl, refl))

  take_unikraft-IsLargest :
      (limit : ℕ) (s : State)
      → Has env (λ k. 2 ^ k) limit
      → Ends (IsLargest (λ k. 2 ^ k) limit) Never (take_unikraft limit s)
  unfolding take_unikraft
  take_unikraft-IsLargest zero s has = (refl, refl)
  take_unikraft-IsLargest (suc k) s has =
      let e : suc k - 1 ≡ k = omega arith in
      let nonzero : (suc k == 0) ≡ false = ground arith in
      rw (nonzero, e) (refl, has.fits s.trace k (omega arith), refl, (refl, refl))

module _ ⦃env : Env⦄ (limit : ℕ) where
  probe_minios-limit :
      (fuel k : ℕ) (s : State)
      → Has env (λ k. k) limit
      → k ≤ limit
      → limit < fuel + k
      → Ends (λ order _. order ≡ limit) Never (probe_minios fuel k s)
  unfolding probe_minios
  probe_minios-limit zero k s has h enough = omega (arith, h, enough)
  probe_minios-limit (suc fuel) k s has h enough = elim (Bool-cases (k == limit)) [
    | inl last ↦ rw (tested env (λ k. k) limit k s.trace has h, last) (==→eq k limit last)
    | inr other ↦
        rw (tested env (λ k. k) limit k s.trace has h, other)
          (probe_minios-limit fuel (k + 1) _ has (ground arith) (omega (arith, enough)))
  ]

  probe_unikraft-limit :
      (fuel k : ℕ) (s : State)
      → Has env (λ k. 2 ^ k) limit
      → PageAligned env
      → limit < 31
      → k ≤ limit
      → limit < fuel + k
      → Ends (λ order _. order ≡ limit) Never (probe_unikraft fuel k s)
  unfolding probe_unikraft is_page_aligned
  probe_unikraft-limit zero k s has aligned small h enough = omega (arith, h, enough)
  probe_unikraft-limit (suc fuel) k s has aligned small h enough = elim (Bool-cases (k == limit)) [
    | inl last ↦
        rw
          (
            lt→ltb k 31 (omega (arith, h, small)),
            aligned s.trace _ (2 ^ k),
            tested env (λ k. 2 ^ k) limit k s.trace has h,
            last,
          )
          (==→eq k limit last)
    | inr other ↦
        rw
          (
            lt→ltb k 31 (omega (arith, h, small)),
            aligned s.trace _ (2 ^ k),
            tested env (λ k. 2 ^ k) limit k s.trace has h,
            other,
          )
          (probe_unikraft-limit fuel (k + 1) _ has aligned small (ground arith)
            (omega (arith, enough)))
  ]

  -- If the kernel has the blocks with exponents below `limit` and not the next one, at every time,
  -- the Mini-OS `os_alloc_max_contiguous_memory` returns a block of the largest size, the one that its
  -- last call got for that size, and an error if there is none. It ends after at most `limit + 1` rounds. The largest exponent is at most 30.
  pub os_alloc_max_minios-IsLargest :
      (fuel : ℕ) (s : State)
      → Has env (λ k. k) limit
      → limit ≤ 31
      → limit < fuel
      → Ends (IsLargest (λ k. k) limit) Never (os_alloc_max_minios fuel s)
  unfolding os_alloc_max_minios
  os_alloc_max_minios-IsLargest fuel s has small enough =
      Ends.bind (λ order _. order ≡ limit) Never (IsLargest (λ k. k) limit) (probe_minios fuel 0 s)
        _ (probe_minios-limit fuel 0 s has (omega arith) (omega (arith, enough)))
        λ order s1 e. rw e (take_minios-IsLargest limit s1 has small)

  -- The same of the Unikraft version, which asks by the number of pages, if the blocks are aligned
  -- and the largest exponent is at most 29.
  pub os_alloc_max_unikraft-IsLargest :
      (fuel : ℕ) (s : State)
      → Has env (λ k. 2 ^ k) limit
      → PageAligned env
      → limit < 31
      → limit < fuel
      → Ends (IsLargest (λ k. 2 ^ k) limit) Never (os_alloc_max_unikraft fuel s)
  unfolding os_alloc_max_unikraft
  os_alloc_max_unikraft-IsLargest fuel s has aligned small enough =
      Ends.bind (λ order _. order ≡ limit) Never (IsLargest (λ k. 2 ^ k) limit)
        (probe_unikraft fuel 0 s) _
        (probe_unikraft-limit fuel 0 s has aligned small (omega arith) (omega (arith, enough)))
        λ order s1 e. rw e (take_unikraft-IsLargest limit s1 has)
