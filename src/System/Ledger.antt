-- ===== src/System/Ledger.antt =====
-- The books that a trace keeps of the process' resources: how often a descriptor was opened and
-- closed, and how often an address was handed out by `malloc` or `asprintf` and given back by
-- `free`.
use cloning_apps.Base.{
  ℕ, ℤ, ◌+◌, ◌≤◌, ◌≡◌, arith, ◌==◌, ◌==ℤ◌, is_neg, if◌then◌else◌, ◌∷◌, [], minus_one,
}
use cloning_apps.System.{
  Call, socket, accept, open_file, close, malloc, asprintf, free, Reply, Trace,
}

-- One if `d` is the descriptor `fd`. A negative number is no descriptor.
abbrev pub is_fd : ℤ → ℤ → ℕ
is_fd fd d = if is_neg d then 0 else if d ==ℤ fd then 1 else 0

-- One if `a` is the address `p`. The null pointer is no address.
abbrev pub is_ptr : ℕ → ℕ → ℕ
is_ptr p a = if a == 0 then 0 else if a == p then 1 else 0

-- The call hands out the descriptor `fd`.
abbrev pub opening : ℤ → Call → Reply → ℕ
opening fd (socket _) r = is_fd fd r.value
opening fd (accept _) r = is_fd fd r.value
opening fd (open_file _ _) r = is_fd fd r.value
opening fd _ r = 0

abbrev pub closing : ℤ → Call → ℕ
closing fd (close d) = is_fd fd d
closing fd _ = 0

-- `malloc` or `asprintf` hands out the address `p`.
abbrev pub allocating : ℕ → Call → Reply → ℕ
allocating p (malloc _) r = is_ptr p r.ptr
allocating p (asprintf _) r = is_ptr p r.ptr
allocating p _ r = 0

abbrev pub freeing : ℕ → Call → ℕ
freeing p (free a) = is_ptr p a
freeing p _ = 0

abbrev pub opens : ℤ → Trace → ℕ
opens fd [] = 0
opens fd (e ∷ t) = opening fd e.made e.reply + opens fd t

abbrev pub closes : ℤ → Trace → ℕ
closes fd [] = 0
closes fd (e ∷ t) = closing fd e.made + closes fd t

abbrev pub allocs : ℕ → Trace → ℕ
allocs p [] = 0
allocs p (e ∷ t) = allocating p e.made e.reply + allocs p t

abbrev pub frees : ℕ → Trace → ℕ
frees p [] = 0
frees p (e ∷ t) = freeing p e.made + frees p t

-- From the trace `t` to the trace `u` the process has come to own the descriptor `d` and the
-- address `a`, and nothing else: `fd` was opened as often as it was closed, and once more if it is
-- `d`; `p` was allocated as often as it was freed, and once more if it is `a`.
abbrev pub Holds : ℤ → ℕ → ℤ → ℕ → Trace → Trace → Type 0
Holds fd p d a t u =
    (opens fd u + closes fd t ≡ opens fd t + closes fd u + is_fd fd d)
    × (allocs p u + frees p t ≡ allocs p t + frees p u + is_ptr p a)

-- Every descriptor was closed as often as it was opened, and every address freed as often as it was
-- allocated.
abbrev pub Balanced : ℤ → ℕ → Trace → Trace → Type 0
Balanced fd p = Holds fd p minus_one 0

-- From `t` to `u` nothing was given back that was not acquired, and `fd` and `p` are owned at most
-- once.
abbrev pub AtMostOne : ℤ → ℕ → Trace → Trace → Type 0
AtMostOne fd p t u =
    (opens fd t + closes fd u ≤ opens fd u + closes fd t)
    × (opens fd u + closes fd t ≤ opens fd t + closes fd u + 1)
    × (allocs p t + frees p u ≤ allocs p u + frees p t)
    × (allocs p u + frees p t ≤ allocs p t + frees p u + 1)

-- From `t` to `u` the process has come to own just `d` and `a`: one descriptor and one address,
-- whichever numbers the books are kept of.
abbrev pub Owns : ℤ → ℕ → Trace → Trace → Type 0
Owns d a t u = (b : ℤ × ℕ) → Holds b.0 b.1 d a t u

-- It owns nothing that it did not own at `t`.
abbrev pub Even : Trace → Trace → Type 0
Even t u = Owns minus_one 0 t u

-- It owns one descriptor and one address at most.
abbrev pub OwnsOne : Trace → Trace → Type 0
OwnsOne t u = (d : ℤ) × (a : ℕ) × Owns d a t u

-- The books of the number -1, which is no descriptor, and of the null pointer.
abbrev pub no_books : ℤ × ℕ
no_books = (minus_one, 0)

pub Even-Owns : (d : ℤ) (a : ℕ) (t u v : Trace) → Even t u → Owns d a u v → Owns d a t v
Even-Owns d a t u v h k (fd, p) = omega (arith, h (fd, p), k (fd, p))

pub Owns-Even : (d : ℤ) (a : ℕ) (t u v : Trace) → Owns d a t u → Even u v → Owns d a t v
Owns-Even d a t u v h k (fd, p) = omega (arith, h (fd, p), k (fd, p))

module _ (fd : ℤ) (p : ℕ) where
  pub is_fd-le : (d : ℤ) → is_fd fd d ≤ 1
  is_fd-le d = ground arith

  pub is_ptr-le : (a : ℕ) → is_ptr p a ≤ 1
  is_ptr-le a = ground arith

  pub Holds-AtMostOne : (d : ℤ) (a : ℕ) (t u : Trace) → Holds fd p d a t u → AtMostOne fd p t u
  Holds-AtMostOne d a t u h = omega (arith, is_fd-le d, is_ptr-le a)

  -- What is acquired after everything was given back is all that is acquired.
  pub Balanced-Holds :
      (d : ℤ) (a : ℕ) (t u v : Trace) → Balanced fd p t u → Holds fd p d a u v → Holds fd p d a t v
  Balanced-Holds d a t u v h k = omega arith
