-- ===== src/Cmdline/Numbers.antt =====
-- The numbers of the command line: `%d` and `atoi` read back what `%lu` writes.
use cloning_apps.Base.{
  ℕ, pos, ◌+◌, ◌-◌, ◌*◌, ◌^◌, ◌<◌, ◌≡◌, refl, ap, sym, ◌∙◌, some, List, [], ◌∷◌, append-nil, arith,
  digits, show_u64,
}
use cloning_apps.Memory.{read_digits}
use cloning_apps.Memory.Size.{Fits10-u64, read_digits-digits, digits-cons}
use cloning_apps.Cmdline.{scan_digits, scan_unsigned, scan_int}

scan_digits-read_digits : (acc : ℕ) (s : List ℕ) → scan_digits acc s ≡ (read_digits acc s).0
unfolding scan_digits read_digits
scan_digits-read_digits acc [] = refl
scan_digits-read_digits acc (c ∷ s) =
    ground (arith, scan_digits-read_digits (acc * 10 + (c - 48)) s)

scan_digits-show_u64 : (n : ℕ) → n < 2 ^ 64 → scan_digits 0 (show_u64 n) ≡ n
unfolding show_u64 read_digits
scan_digits-show_u64 n h =
    let read = read_digits-digits 20 n [] (Fits10-u64 n h) in
    scan_digits-read_digits 0 (digits 20 n)
    ∙ ap (λ s. (read_digits 0 s).0) (sym (append-nil (digits 20 n)))
    ∙ ap (λ r. r.0) read

-- Text that begins with a digit has neither blanks nor a sign before its number.
scan_int-digit :
    (d n : ℕ) (s : List ℕ)
    → d < 10
    → n < 2 ^ 31
    → scan_digits 0 ((48 + d) ∷ s) ≡ n
    → scan_int ((48 + d) ∷ s) ≡ some (pos n)
unfolding scan_int scan_unsigned
scan_int-digit d n s h small e = ground (arith, e)

-- A number below 2 ^ 31 in decimal is read back by `sscanf` with `%d`, and so by `atoi`.
pub scan_int-show_u64 : (n : ℕ) → n < 2 ^ 31 → scan_int (show_u64 n) ≡ some (pos n)
scan_int-show_u64 n h =
    let read = scan_digits-show_u64 n (omega (arith, h)) in
    let (d, s, e, small) = first_digit n in rw e (scan_int-digit d n s small h (rw e at read))
  where
    first_digit : (n : ℕ) → (d : ℕ) × (s : List ℕ) × (show_u64 n ≡ (48 + d) ∷ s) × (d < 10)
    first_digit n = unfold show_u64 in digits-cons 19 n
