-- ===== src/Profile/Laws.antt =====
-- How the measurements of common/profile.h in nanoseconds and in microseconds agree.
use cloning_apps.Base.{ℕ, ℤ, List, [], ◌∷◌, ◌+ℤ◌, ◌-ℤ◌, pos, ◌+◌, ◌*◌, ◌/◌, ◌^◌, ◌<◌, ◌≡◌, arith}
use cloning_apps.System.{
  Timespec, Env, State, Trace, Call, print_line, Cmd, ◌>>=◌, clock_gettime, event,
}
use cloning_apps.System.Ends
use cloning_apps.System.Ends.{Ends, Never}
use cloning_apps.Profile.{
  Double, profile_nested_tick, profile_nested_tock, print_timestamp_line, timespec_nsec,
  timespec_usec, timespec_diff_nsec, timespec_diff_usec,
}

-- A time after 1970, by seconds and nanoseconds.
abbrev pub at : ℕ → ℕ → Timespec
at sec nsec = record { sec = pos sec; nsec = pos nsec }

timespec_nsec-at :
    (x u : ℕ) → x < 2 ^ 33 → u < 10 ^ 9 → timespec_nsec (at x u) ≡ pos (x * 10 ^ 9 + u)
unfolding timespec_nsec
timespec_nsec-at x u hx hu = ground arith

timespec_usec-at :
    (x u : ℕ) → x < 2 ^ 33 → u < 10 ^ 9 → timespec_usec (at x u) ≡ x * 10 ^ 6 + u / 1000
unfolding timespec_usec
timespec_usec-at x u hx hu = ground arith

-- For times before 2 ^ 33 seconds, in order, `timespec_diff_nsec` is exactly the time between them,
-- and `timespec_diff_usec` is off by less than one microsecond.
pub timespec_diff-agree :
    (x u y v d : ℕ)
    → x < 2 ^ 33
    → y < 2 ^ 33
    → u < 10 ^ 9
    → v < 10 ^ 9
    → x * 10 ^ 9 + u + d ≡ y * 10 ^ 9 + v
    → let usec = timespec_diff_usec (at x u) (at y v) in
      (timespec_diff_nsec (at x u) (at y v) ≡ pos d)
      × (d < usec * 1000 + 1000)
      × (usec * 1000 < d + 1000)
unfolding timespec_diff_nsec timespec_diff_usec
timespec_diff-agree x u y v d hx hy hu hv e =
    rw
      (
        timespec_nsec-at x u hx hu,
        timespec_nsec-at y v hy hv,
        timespec_usec-at x u hx hu,
        timespec_usec-at y v hy hv,
      )
      (ground arith, ground arith, ground arith)

-- The calls that print a line.
abbrev is_line : Call → ℕ
is_line (print_line _) = 1
is_line _ = 0

abbrev pub lines : Trace → ℕ
lines [] = 0
lines (e ∷ t) = is_line e.made + lines t

module _ ⦃env : Env⦄ where
  -- `PROFILE_NESTED_TICK` and `PROFILE_NESTED_TOCK_MSEC` around a part that comes back with the level
  -- that it was given leave the level as it was, and print one line after those of that part.
  pub profile_nested-level :
      (double : Double) (lvl : ℤ) (str : List ℕ) (body : ℤ → Cmd ℤ) (s : State)
      → ((l : ℤ) (s : State)
          → Ends (λ l' s'. (l' ≡ l) × (lines s'.trace ≡ lines s.trace)) Never (body l s))
      → Ends
          (λ l s'. (l ≡ lvl) × (lines s'.trace ≡ lines s.trace + 1))
          Never
          ((do
            (l, tick) ← profile_nested_tick lvl
            l' ← body l
            profile_nested_tock double l' tick str)
            s)
  unfolding profile_nested_tick profile_nested_tock print_timestamp_line
  profile_nested-level double lvl str body s quiet =
      Ends.bind_total _ _ _ (body (lvl +ℤ pos 1) s1) _ (quiet (lvl +ℤ pos 1) s1)
        λ l' s2 (e, same). (back l' e, omega (arith, same))
    where
      back : (l : ℤ) → l ≡ lvl +ℤ pos 1 → l -ℤ pos 1 ≡ lvl
      back l e = ground arith

      s1 : State
      s1 = record s { trace = event clock_gettime (env.answer s.trace clock_gettime) ∷ s.trace }
