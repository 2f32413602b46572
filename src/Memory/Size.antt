-- ===== src/Memory/Size.antt =====
-- Memory sizes as text, and as pages: `memsize_str2bytes` and `memsize_str2pages` of common/mem.c.
use cloning_apps.Base.{
  ℕ, zero, suc, ◌+◌, ◌-◌, ◌*◌, ◌/◌, ◌%◌, ◌^◌, ◌≤◌, ◌<◌, ◌≡◌, refl, ap, ◌∙◌, true, false, List, [],
  ◌∷◌, ◌++◌, arith, ◌==◌, ltb, Bool-cases, inl, inr, codes, digits, show_u64, append_assoc, lt→ltb,
  ltb→lt, ==→eq,
}
use cloning_apps.Memory.{
  read_digits, read_signed, skip_spaces, strtoul, unit_factor, memsize_str2bytes, div_round_up,
  is_space, is_digit,
}

-- `n` has at most `f` decimal digits.
abbrev pub Fits10 : ℕ → ℕ → Type 0
Fits10 zero n = n ≡ 0
Fits10 (suc f) n = Fits10 f (n / 10)

pub Fits10-u64 : (n : ℕ) → n < 2 ^ 64 → Fits10 20 n
Fits10-u64 n h = omega arith

is_digit-add : (d : ℕ) → d < 10 → is_digit (48 + d) ≡ true
is_digit-add d h = ground arith

read_digit :
    (acc d : ℕ) (rest : List ℕ)
    → d < 10
    → read_digits acc ((48 + d) ∷ rest) ≡ read_digits (acc * 10 + d) rest
unfolding read_digits
read_digit acc d rest h = rw (is_digit-add d h) (ap (λ a. read_digits a rest) (omega arith))

pub read_digits-digits :
    (f n : ℕ) (rest : List ℕ) → Fits10 f n → read_digits 0 (digits f n ++ rest) ≡ read_digits n rest
unfolding digits
read_digits-digits zero n rest h = rw h
read_digits-digits (suc f) n rest h = elim (Bool-cases (ltb n 10)) [
  | inl small ↦
      rw small
        (read_digit 0 n rest (ltb→lt n 10 small) ∙ ap (λ a. read_digits a rest) (omega arith))
  | inr large ↦
      rw (large, append_assoc, read_digits-digits f (n / 10) _ h)
        (read_digit (n / 10) (n % 10) rest (omega arith)
          ∙ ap (λ a. read_digits a rest) (omega arith))
]

-- The first digit of a number.
pub digits-cons : (f n : ℕ) → (d : ℕ) × (s : List ℕ) × (digits (suc f) n ≡ (48 + d) ∷ s) × (d < 10)
unfolding digits
digits-cons zero n = elim (Bool-cases (ltb n 10)) [
  | inl small ↦ (n, [], rw small, ltb→lt n 10 small)
  | inr large ↦ (n % 10, [], rw large, omega arith)
]
digits-cons (suc f) n = elim (Bool-cases (ltb n 10)) [
  | inl small ↦ (n, [], rw small, ltb→lt n 10 small)
  | inr large ↦
      let (d, s, e, h) = digits-cons f (n / 10) in (d, s ++ (48 + n % 10) ∷ [], rw (large, e), h)
]

-- Text that begins with a digit is read by `strtoul` from there on.
strtoul-digit :
    (d : ℕ) (s : List ℕ)
    → d < 10
    → (read_digits 0 ((48 + d) ∷ s)).0 < 2 ^ 64
    → strtoul ((48 + d) ∷ s) ≡ read_digits 0 ((48 + d) ∷ s)
unfolding strtoul read_signed skip_spaces
strtoul-digit d s h fits = rw (space, minus, plus, lt→ltb _ _ fits) refl
  where
    space : is_space (48 + d) ≡ false
    space = ground arith

    minus : ((48 + d) == b'-') ≡ false
    minus = ground arith

    plus : ((48 + d) == b'+') ≡ false
    plus = ground arith

-- The units of the command line, with the number of bytes of each.
pub data SizeUnit : Type 0 where
  plain bytes kilobytes megabytes gigabytes : SizeUnit

abbrev pub suffix : SizeUnit → List ℕ
suffix plain = []
suffix bytes = codes "B"
suffix kilobytes = codes "KB"
suffix megabytes = codes "MB"
suffix gigabytes = codes "GB"

abbrev pub exponent : SizeUnit → ℕ
exponent plain = 0
exponent bytes = 0
exponent kilobytes = 10
exponent megabytes = 20
exponent gigabytes = 30

read_digits-suffix : (n : ℕ) (u : SizeUnit) → read_digits n (suffix u) ≡ (n, suffix u)
unfolding read_digits
read_digits-suffix n plain = refl
read_digits-suffix n _ = refl

unit_factor-exponent : (u : SizeUnit) → unit_factor (suffix u) ≡ 2 ^ exponent u
unfolding unit_factor
unit_factor-exponent plain = refl
unit_factor-exponent _ = refl

strtoul-show :
    (n : ℕ) (u : SizeUnit) → n < 2 ^ 64 → strtoul (show_u64 n ++ suffix u) ≡ (n, suffix u)
unfolding show_u64
strtoul-show n u h =
    let read = read_digits-digits 20 n (suffix u) (Fits10-u64 n h) ∙ read_digits-suffix n u in
    let (d, s, e, small) = digits-cons 19 n in
    rw e (strtoul-digit d (s ++ suffix u) small (rw (rw e at read) h) ∙ (rw e at read))

-- Every size below 2 ^ 64, written in decimal with a unit or none, is read as the number times the
-- unit, modulo 2 ^ 64.
pub memsize_str2bytes-show :
    (n : ℕ) (u : SizeUnit)
    → n < 2 ^ 64
    → memsize_str2bytes (show_u64 n ++ suffix u) ≡ (n * 2 ^ exponent u) % 2 ^ 64
unfolding memsize_str2bytes
memsize_str2bytes-show n u h =
    rw (strtoul-show n u h, unit_factor-exponent u)
      (elim (Bool-cases (n == 0)) [ inl z ↦ rw (z, ==→eq n 0 z) (omega arith) | inr nz ↦ rw nz ])

-- The number of pages is the least whose pages hold the bytes, when the bytes and one page more fit
-- in an `unsigned long`.
pub div_round_up-least :
    (v d : ℕ)
    → 0 < v
    → 0 < d
    → v + d ≤ 2 ^ 64
    → (v ≤ div_round_up v d * d) × (div_round_up v d * d < v + d)
unfolding div_round_up
div_round_up-least v d hv hd fits =
    let e : (v + d + 2 ^ 64 - 1) % 2 ^ 64 ≡ v + d - 1 = omega arith in rw e (omega arith)
