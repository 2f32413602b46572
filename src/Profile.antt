-- ===== src/Profile.antt =====
-- The measurements of common/profile.h, in a build that sets LIB_PROFILING.
pub mod Laws
use cloning_apps.Base.{
  ℕ, ℤ, suc, pos, negsuc, Bool, List, ◌∷◌, ◌++◌, ◌==◌, if◌then◌else◌, pos_part, neg_part, replicate,
  length, codes, show_u64, show_int, ◌+◌, ◌-◌, ◌*◌, ◌/◌, ◌%◌, ◌^◌, ◌+ℤ◌, ◌-ℤ◌, times, to_i64,
  to_u64,
}
use cloning_apps.System.{
  minios, get_platform, print_line, append_file, print_file, close_file, fault, Env, Timespec,
  clock_gettime, clock_realtime, Cmd, pure, ◌>>=◌, ◌>>◌, call,
}

-- `time_t` has 64 bits. C leaves its overflow undefined, and here it wraps.
unfoldable pub timespec_nsec : Timespec → ℤ
timespec_nsec t = to_i64 (times t.sec 1000000000 +ℤ t.nsec)

unfoldable pub timespec_usec : Timespec → ℕ
timespec_usec t = (to_u64 t.sec * 1000000 + to_u64 t.nsec / 1000) % 2 ^ 64

unfoldable pub timespec_diff_nsec : Timespec → Timespec → ℤ
unfolding timespec_nsec
timespec_diff_nsec start end = to_i64 (timespec_nsec end -ℤ timespec_nsec start)

unfoldable pub timespec_diff_usec : Timespec → Timespec → ℕ
unfolding timespec_usec
timespec_diff_usec start end = (timespec_usec end + (2 ^ 64 - timespec_usec start)) % 2 ^ 64

-- `struct profile`
pub record Profile : Type 0 where
  pub start : Timespec
  pub stop : Timespec

-- The C type `double`, as the implementation of C has it: the conversions from and to `long`, the
-- operations with an `int` constant, and the texts of `%.6lf` and `%11.6lf`.
pub record Double : Type 1 where
  pub Value : Type 0
  pub of_long : ℤ → Value
  pub to_long : Value → ℤ
  pub over : Value → ℕ → Value
  pub times_int : Value → ℕ → Value
  pub minus : Value → Value → Value
  pub show_6 : Value → List ℕ
  pub show_11_6 : Value → List ℕ

-- `%09ld`
abbrev pub show_long_9 : ℤ → List ℕ
show_long_9 (pos n) = replicate (9 - length (show_u64 n)) 48 ++ show_u64 n
show_long_9 (negsuc n) = 45 ∷ (replicate (8 - length (show_u64 (suc n))) 48 ++ show_u64 (suc n))

module _ (double : Double) where
  unfoldable pub timespec_diff_msec : Timespec → Timespec → double.Value
  unfolding timespec_diff_nsec
  timespec_diff_msec start end = double.over (double.of_long (timespec_diff_nsec start end)) 1000000

  unfoldable pub timespec_diff_sec : Timespec → Timespec → double.Value
  unfolding timespec_diff_nsec
  timespec_diff_sec start end =
      double.over (double.of_long (timespec_diff_nsec start end)) 1000000000

  unfoldable pub profile_msec : Profile → double.Value
  unfolding timespec_diff_msec
  profile_msec p = timespec_diff_msec p.start p.stop

  -- The result is a `time_t`.
  unfoldable pub profile_sec : Profile → ℤ
  unfolding timespec_diff_sec
  profile_sec p = double.to_long (timespec_diff_sec p.start p.stop)

  -- `PRINT_TIMESTAMP` on Mini-OS: the thousandths are printed without leading zeros.
  unfoldable pub timestamp_line_minios : double.Value → ℤ → List ℕ → List ℕ
  timestamp_line_minios value lvl str =
      let whole = double.to_long value in
      let thousandths =
        double.to_long (double.times_int (double.minus value (double.of_long whole)) 1000) in
      codes "CLONING_TRACE "
      ++ (show_int whole
          ++ (codes "."
              ++ (show_int thousandths ++ (codes " " ++ (show_int lvl ++ (codes " " ++ str))))))

  -- `PRINT_TIMESTAMP` elsewhere, indented by the level
  unfoldable pub timestamp_line_other : double.Value → ℤ → List ℕ → List ℕ
  timestamp_line_other value lvl str =
      codes "CLONING_TRACE "
      ++ (double.show_11_6 value
          ++ (codes " "
              ++ (show_int lvl
                  ++ (codes " "
                      ++ (replicate (2 * (pos_part lvl + neg_part lvl)) 32
                          ++ (codes " " ++ str))))))

module _ ⦃env : Env⦄ where
  unfoldable pub print_timestamp_line :
      (double : Double) → double.Value → ℤ → List ℕ → Cmd (Unit {0})
  print_timestamp_line double value lvl str =
      let line : List ℕ = elim get_platform [
        | minios ↦ timestamp_line_minios double value lvl str
        | _ ↦ timestamp_line_other double value lvl str
      ] in
      call (print_line line) >> pure tt

  -- `PROFILE_NESTED_TICK`, given `__app_profile_lvl`: the new level and `__profile_tick`.
  unfoldable pub profile_nested_tick : ℤ → Cmd (ℤ × Timespec)
  profile_nested_tick lvl = do r ← call clock_gettime; pure (lvl +ℤ pos 1, r.spec)

  -- `PROFILE_NESTED_TOCK_MSEC`: the new level.
  unfoldable pub profile_nested_tock : Double → ℤ → Timespec → List ℕ → Cmd ℤ
  profile_nested_tock double lvl tick str = do
    r ← call clock_gettime
    print_timestamp_line double (timespec_diff_msec double tick r.spec) lvl str
    pure (lvl -ℤ pos 1)

  -- `PROFILE_TS_SEC`, given what the format makes of the arguments.
  unfoldable pub profile_ts_sec : List ℕ → Cmd (Unit {0})
  profile_ts_sec text = do
    r ← call clock_realtime
    call (
        print_line
          (show_int r.spec.sec ++ (codes "." ++ (show_long_9 r.spec.nsec ++ (codes " " ++ text)))))
    pure tt

  -- `PROFILE_PRINT_MSEC`, given the trigger and what the format makes of the arguments. Whether the
  -- file could be opened is not tested.
  unfoldable pub profile_print_msec : Double → Bool → Profile → List ℕ → Cmd (Unit {0})
  profile_print_msec double trigger p text =
      if trigger
      then (do
        fp ← call (append_file (codes "/root/xl.profile.out"))
        if fp.ptr == 0 then fault else (do
          call (print_file fp.ptr (double.show_6 (profile_msec double p) ++ text))
          call (close_file fp.ptr)
          pure tt))
      else pure tt

  unfoldable pub profile_start : Profile → Cmd (ℤ × Profile)
  profile_start p = do r ← call clock_realtime; pure (r.value, record p { start = r.spec })

  unfoldable pub profile_stop : Profile → Cmd (ℤ × Profile)
  profile_stop p = do r ← call clock_realtime; pure (r.value, record p { stop = r.spec })
