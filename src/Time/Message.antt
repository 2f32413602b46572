-- ===== src/Time/Message.antt =====
-- Times and their text: `timersub`, and the buffers of `send_time` and of its callers.
use cloning_apps.Base.{
  ℕ, ℤ, zero, suc, pos, negsuc, ◌+◌, ◌-◌, ◌*◌, ◌/◌, ◌%◌, ◌^◌, ◌≤◌, ◌<◌, ◌≡◌, true, some, List,
  arith, ltb, Bool-cases, inl, inr, length, length-append, length-replicate, replicate, digits,
  show_u64, show_u64_6, show_int, length-digits_le, pos_part, neg_part, to_u64,
}
use cloning_apps.System.{Timeval}
use cloning_apps.Time.{timersub, time_message}

-- `n` has at most `k` decimal digits.
abbrev AtMostDigits : ℕ → ℕ → Type 0
AtMostDigits zero n = n ≡ 0
AtMostDigits (suc k) n = AtMostDigits k (n / 10)

length-digits_few : (k fuel n : ℕ) → AtMostDigits (suc k) n → length (digits fuel n) ≤ suc k
unfolding digits
length-digits_few k zero n h = omega arith
length-digits_few zero (suc fuel) n h =
    let small : ltb n 10 ≡ true = ground arith in rw small (omega arith)
length-digits_few (suc k) (suc fuel) n h = elim (Bool-cases (ltb n 10)) [
  | inl small ↦ rw small (omega arith)
  | inr large ↦
      rw (large, length-append (digits fuel (n / 10)))
        (omega (arith, length-digits_few k fuel (n / 10) h))
]

length-show_u64 : (n : ℕ) → length (show_u64 n) ≤ 20
unfolding show_u64
length-show_u64 n = length-digits_le 20 n

length-show_u64_6 : (n : ℕ) → n < 10 ^ 6 → length (show_u64_6 n) ≤ 6
unfolding show_u64_6 show_u64
length-show_u64_6 n h =
    rw
      (
        length-append {A = ℕ} (replicate (6 - length (digits 20 n)) 48),
        length-replicate {A = ℕ} (6 - length (digits 20 n)) 48,
      )
      (omega (arith, length-digits_few 5 20 n (omega arith)))

pub length-show_int : (i : ℤ) → pos_part i < 2 ^ 31 → neg_part i ≤ 2 ^ 31 → length (show_int i) ≤ 11
unfolding show_int show_u64
length-show_int (pos n) h k = omega (arith, length-digits_few 9 20 n (omega arith))
length-show_int (negsuc n) h k = omega (arith, length-digits_few 9 20 (suc n) (omega arith))

-- The text of a time whose microseconds are below a million, with a suffix of at most 31 bytes, has
-- at most 59 bytes. With its NUL it fits in the 64 bytes of `message`.
pub length-time_message :
    (tv : Timeval) (u : ℕ) (suffix : List ℕ)
    → tv.usec ≡ pos u
    → u < 10 ^ 6
    → length suffix ≤ 31
    → length (time_message tv (some suffix)) + 1 ≤ 64
unfolding time_message
length-time_message tv u suffix e h k =
    let same : u % 2 ^ 64 ≡ u = omega arith in
    rw (e, same, length-append (show_u64 (to_u64 tv.sec)), length-append (show_u64_6 u))
      (omega (arith, length-show_u64 (to_u64 tv.sec), length-show_u64_6 u h))

-- `timersub` of two times with microseconds below a million gives microseconds below a million, and
-- the exact difference, also where the second time is the later one.
pub timersub-exact :
    (x y : ℤ) (u v : ℕ)
    → u < 10 ^ 6
    → v < 10 ^ 6
    → let r = timersub (record { sec = x; usec = pos u }) (record { sec = y; usec = pos v }) in
      (w : ℕ) × (r.usec ≡ pos w)
      × (w < 10 ^ 6)
      × ((pos_part r.sec + neg_part x + pos_part y) * 10 ^ 6 + w + v
          ≡ (neg_part r.sec + pos_part x + neg_part y) * 10 ^ 6 + u)
unfolding timersub
timersub-exact x y u v hu hv = elim (Bool-cases (ltb u v)) [
  | inl less ↦ (u + 10 ^ 6 - v, ground arith, ground arith, ground arith)
  | inr more ↦ (u - v, ground arith, ground arith, ground arith)
]
