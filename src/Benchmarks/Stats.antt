-- ===== src/Benchmarks/Stats.antt =====
-- The line with a duration that memory-overhead.c prints.
use cloning_apps.Base.{
  ℕ, pos, ◌+◌, ◌*◌, ◌/◌, ◌%◌, ◌^◌, ◌<◌, ◌≡◌, List, ◌++◌, arith, refl, codes, show_u64, show_u64_3,
  to_u64, ◌+ℤ◌, thousandfold, quotient_1000, remainder_1000,
}
use cloning_apps.Benchmarks.{stats_line}

-- For a duration with microseconds below a million and less than 2 ^ 53 seconds, `print_stats` prints
-- its microseconds exactly: the thousands of them, a point, and the rest in at least three digits.
pub stats_line-exact :
    (prefix : List ℕ) (pages_num sec usec : ℕ)
    → sec < 2 ^ 53
    → usec < 10 ^ 6
    → let total = sec * 10 ^ 6 + usec in
      stats_line prefix pages_num (record { sec = pos sec; usec = pos usec })
      ≡ codes "OVERHEAD_TRACE "
        ++ (prefix
            ++ (codes " pages="
                ++ (show_u64 pages_num
                    ++ (codes " duration="
                        ++ (show_u64 (total / 1000) ++ (codes "." ++ show_u64_3 (total % 1000)))))))
unfolding stats_line
stats_line-exact prefix pages_num sec usec few small =
    let msec : to_u64 (thousandfold (pos sec) +ℤ quotient_1000 (pos usec))
        ≡ (sec * 10 ^ 6 + usec) / 1000 =
      ground arith in
    let rest : to_u64 (remainder_1000 (pos usec)) ≡ (sec * 10 ^ 6 + usec) % 1000 = ground arith in
    rw (msec, rest) refl
