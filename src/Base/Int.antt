-- ===== src/Base/Int.antt =====
-- Signed integers over the native numbers: the return codes and descriptors of the C code.
use Prim.Native.Nat.{ℕ, suc, ◌+◌, ◌-◌, ◌*◌, ◌/◌, ◌%◌, ◌^◌}
use mathlib.Core.Bool.{Bool, true, false}
use mathlib.Core.Path.{◌≡◌, refl, ap}
use cloning_apps.Base.Tests.{◌==◌, ==→eq, leb, ltb, if◌then◌else◌}

-- `negsuc n` is -(n + 1).
pub data ℤ : Type 0 where
  pos : ℕ → ℤ
  negsuc : ℕ → ℤ

abbrev pub pos_part : ℤ → ℕ
pos_part (pos n) = n
pos_part (negsuc n) = 0

abbrev pub neg_part : ℤ → ℕ
neg_part (pos n) = 0
neg_part (negsuc n) = suc n

-- a - b, as an integer.
abbrev pub sub_ℕ : ℕ → ℕ → ℤ
sub_ℕ a b = if leb b a then pos (a - b) else negsuc (b - a - 1)

infixl 65 ◌+ℤ◌ ◌-ℤ◌
abbrev pub ◌+ℤ◌ : ℤ → ℤ → ℤ
a +ℤ b = sub_ℕ (pos_part a + pos_part b) (neg_part a + neg_part b)

abbrev pub ◌-ℤ◌ : ℤ → ℤ → ℤ
a -ℤ b = sub_ℕ (pos_part a + neg_part b) (neg_part a + pos_part b)

-- `a < 0`
abbrev pub is_neg : ℤ → Bool
is_neg (pos n) = false
is_neg (negsuc n) = true

-- `a == 0`
abbrev pub is_zero : ℤ → Bool
is_zero (pos n) = n == 0
is_zero (negsuc n) = false

pub is_neg-is_zero : (a : ℤ) → is_neg a ≡ true → is_zero a ≡ false
is_neg-is_zero (pos n) h = cc
is_neg-is_zero (negsuc n) h = refl

pub is_zero-pos : (a : ℤ) → is_zero a ≡ true → a ≡ pos 0
is_zero-pos (pos n) h = ap pos (==→eq n 0 h)
is_zero-pos (negsuc n) h = cc

-- `a > 0`
abbrev pub is_pos : ℤ → Bool
is_pos (pos n) = if n == 0 then false else true
is_pos (negsuc n) = false

-- `a == b`
infix 50 ◌==ℤ◌
abbrev pub ◌==ℤ◌ : ℤ → ℤ → Bool
pos m ==ℤ pos n = m == n
negsuc m ==ℤ negsuc n = m == n
_ ==ℤ _ = false

-- The conversion to `unsigned long`.
abbrev pub to_u64 : ℤ → ℕ
to_u64 (pos n) = n % 2 ^ 64
to_u64 (negsuc n) = 2 ^ 64 - 1 - n % 2 ^ 64

-- The conversion to `unsigned int`.
abbrev pub to_u32 : ℤ → ℕ
to_u32 (pos n) = n % 2 ^ 32
to_u32 (negsuc n) = 2 ^ 32 - 1 - n % 2 ^ 32

-- C's division of an `int` by 1000, its remainder, and products.
abbrev pub quotient_1000 : ℤ → ℤ
quotient_1000 (pos n) = pos (n / 1000)
quotient_1000 (negsuc n) = sub_ℕ 0 (suc n / 1000)

abbrev pub remainder_1000 : ℤ → ℤ
remainder_1000 (pos n) = pos (n % 1000)
remainder_1000 (negsuc n) = sub_ℕ 0 (suc n % 1000)

abbrev pub times : ℤ → ℕ → ℤ
times a k = sub_ℕ (pos_part a * k) (neg_part a * k)

abbrev pub thousandfold : ℤ → ℤ
thousandfold a = sub_ℕ (pos_part a * 1000) (neg_part a * 1000)

-- The conversion to `int`.
abbrev pub to_i32 : ℤ → ℤ
to_i32 a = if ltb (to_u32 a) (2 ^ 31) then pos (to_u32 a) else negsuc (2 ^ 32 - 1 - to_u32 a)

-- The conversion to `long`.
abbrev pub to_i64 : ℤ → ℤ
to_i64 a = if ltb (to_u64 a) (2 ^ 63) then pos (to_u64 a) else negsuc (2 ^ 64 - 1 - to_u64 a)

-- `-1`, and the negated codes of errno.h that the program returns.
abbrev pub minus_one : ℤ
minus_one = negsuc 0

abbrev pub minus_einval : ℤ
minus_einval = negsuc 21

abbrev pub minus_enomem : ℤ
minus_enomem = negsuc 11

abbrev pub minus_enodev : ℤ
minus_enodev = negsuc 18
