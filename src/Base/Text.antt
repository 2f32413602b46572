-- ===== src/Base/Text.antt =====
-- Byte strings: literals, decimal numbers as `printf` writes them, little-endian words.
use Prim.Native.Nat.{ℕ, zero, suc, ◌+◌, ◌-◌, ◌*◌, ◌/◌, ◌%◌, ◌^◌, ◌≤◌, ◌<◌}
use Prim.Native.Char.{code}
use Prim.Native.String.{String}
use mathlib.Core.Path.{◌≡◌, refl}
use mathlib.Core.List.{List, [], ◌∷◌, ◌++◌}
use native.Mathlib.Omega.{arith}
use cloning_apps.Base.Tests.{ltb, if◌then◌else◌}
use cloning_apps.Base.Lists.{length, length-append, replicate}
use cloning_apps.Base.Int.{ℤ, pos, negsuc}

-- The bytes of an ASCII literal.
abbrev pub codes : String → List ℕ
codes String.[] = []
codes (String.◌∷◌ c s) = code c ∷ codes s

-- The decimal digits of `n`, at most `fuel` of them.
unfoldable pub digits : ℕ → ℕ → List ℕ
digits zero n = []
digits (suc fuel) n =
    let rest = digits fuel (n / 10) ++ (48 + n % 10) ∷ [] in
    if ltb n 10 then (48 + n) ∷ [] else rest

-- `%lu`, of a number below 2 ^ 64
unfoldable pub show_u64 : ℕ → List ℕ
show_u64 n = digits 20 n

-- `%6.6lu`: at least six digits
unfoldable pub show_u64_6 : ℕ → List ℕ
show_u64_6 n = replicate (6 - length (show_u64 n)) 48 ++ show_u64 n

-- `%03lu`: at least three digits
unfoldable pub show_u64_3 : ℕ → List ℕ
show_u64_3 n = replicate (3 - length (show_u64 n)) 48 ++ show_u64 n

-- `%d`, of an `int`
unfoldable pub show_int : ℤ → List ℕ
show_int (pos n) = show_u64 n
show_int (negsuc n) = 45 ∷ show_u64 (suc n)

-- A word of `w` bytes, the lowest byte first.
unfoldable pub le_bytes : ℕ → ℕ → List ℕ
le_bytes zero n = []
le_bytes (suc w) n = n % 256 ∷ le_bytes w (n / 256)

unfoldable pub from_le_bytes : List ℕ → ℕ
from_le_bytes [] = 0
from_le_bytes (b ∷ bs) = b + 256 * from_le_bytes bs

pub length-le_bytes : (w n : ℕ) → length (le_bytes w n) ≡ w
unfolding le_bytes
length-le_bytes zero n = refl
length-le_bytes (suc w) n = omega (arith, length-le_bytes w (n / 256))

-- A word is read back from its four bytes.
pub from_le_bytes-le_bytes4 : (n : ℕ) → n < 2 ^ 32 → from_le_bytes (le_bytes 4 n) ≡ n
unfolding le_bytes from_le_bytes
from_le_bytes-le_bytes4 n h = omega arith

pub length-digits_le : (fuel n : ℕ) → length (digits fuel n) ≤ fuel
unfolding digits
length-digits_le zero n = omega arith
length-digits_le (suc fuel) n = ground (
  arith,
  length-append (digits fuel (n / 10)) ((48 + n % 10) ∷ []),
  length-digits_le fuel (n / 10),
)
