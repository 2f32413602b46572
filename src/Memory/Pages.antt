-- ===== src/Memory/Pages.antt =====
-- The page allocator of Mini-OS, os/minios/mem.c: powers of two and their exponents.
use cloning_apps.Base.{ℕ, zero, suc, Bool, true, Option, none, some, ◌&&◌, ◌∷◌, []}
use cloning_apps.System.{Trace, Call}
use cloning_apps.System.Ends.{Ends}

-- All numbers below `n` pass the test.
abbrev all_below : ℕ → (ℕ → Bool) → Bool
all_below zero test = true
all_below (suc n) test = test n && all_below n test

-- The call that was made last.
abbrev pub last_call : Trace → Option Call
last_call [] = none
last_call (e ∷ t) = some e.made
