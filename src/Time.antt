-- ===== src/Time.antt =====
-- Clocks, sleeping and the boot-time report: common/time.c, os/posix/time.c, os/minios/time.c and
-- os/minios/time.h.
pub mod Message
pub mod Report
pub mod Gateway
pub mod Halting
pub mod StopAndWait
use cloning_apps.Base.{
  ℕ, ℤ, zero, suc, pos, Bool, true, false, Option, none, some, List, ◌++◌, ◌*◌, ◌/◌, ◌%◌, ◌==◌,
  if◌then◌else◌, is_neg, is_zero, is_pos, ◌+ℤ◌, ◌-ℤ◌, minus_one, codes, show_u64, show_u64_6,
  to_u64,
}
use cloning_apps.System.{
  Env, posix, unikraft, minios, Timeval, Timespec, gettimeofday, monotonic_clock, nanosleep, msleep,
  Cmd, pure, out_of_fuel, ◌>>=◌, ◌>>◌, call, get_globals, get_platform, stale_word,
}
use cloning_apps.Net.{MySocket}
use cloning_apps.Net.Datagram.{udp_client_send, udp_client_recv}
use cloning_apps.Net.Os.{os_net_ip_get_gw}

-- `timersub(a, b, result)`
unfoldable pub timersub : Timeval → Timeval → Timeval
timersub a b =
    let sec = a.sec -ℤ b.sec in
    let usec = a.usec -ℤ b.usec in
    if is_neg usec
    then record { sec = sec -ℤ pos 1; usec = usec +ℤ pos 1000000 }
    else record { sec = sec; usec = usec }

-- The text of `send_time`: seconds, a point, microseconds in six digits, and the suffix.
unfoldable pub time_message : Timeval → Option (List ℕ) → List ℕ
unfolding show_u64 show_u64_6
time_message tv none = show_u64 (to_u64 tv.sec) ++ (codes "." ++ show_u64_6 (to_u64 tv.usec))
time_message tv (some suffix) =
    show_u64 (to_u64 tv.sec)
    ++ (codes "." ++ (show_u64_6 (to_u64 tv.usec) ++ (codes ";" ++ suffix)))

-- The request that `os_sleep_msec` of os/posix/time.c hands to `nanosleep`.
unfoldable pub sleep_request : ℕ → Timespec
sleep_request millis = record {
  sec = pos (millis / 1000);
  nsec = pos (millis % 1000 * 1000 * 1000);
}

-- `CLOCK_MONOTONIC` of os/minios/time.h
abbrev clock_monotonic : ℕ
clock_monotonic = 1

module _ ⦃env : Env⦄ where
  unfoldable pub os_sleep_msec : ℕ → Cmd (Unit {0})
  unfolding sleep_request
  os_sleep_msec millis = elim get_platform [
    | minios ↦ do call (msleep millis); pure tt
    | _ ↦ do call (nanosleep (sleep_request millis)); pure tt
  ]

  -- `clock_gettime` of os/minios/time.c; `nsec_to_sec` is the kernel's macro `NSEC_TO_SEC`.
  -- The result is the code and, where the code is 0, what `tp` then holds.
  unfoldable pub clock_gettime_minios : (ℕ → ℕ) → ℕ → Cmd (ℤ × Option Timespec)
  clock_gettime_minios nsec_to_sec clk_id =
      if clk_id == clock_monotonic
      then (do
        r ← call monotonic_clock
        let tp : Timespec = record {
          sec = pos (nsec_to_sec (to_u64 r.value));
          nsec = pos (to_u64 r.value % 1000000000);
        }
        pure (pos 0, some tp))
      else pure (minus_one, none)

  -- The loop of `send_time`. A datagram is sent again only after an empty answer.
  unfoldable pub send_loop : ℕ → Option MySocket → ℕ → List ℕ → Cmd ℤ
  send_loop zero sock gw message = out_of_fuel
  send_loop (suc rounds) sock gw message = do
    sent ← udp_client_send sock gw 32764 message
    if is_neg sent then pure sent else (do
      (got, _) ← udp_client_recv sock 5000 64 (pos 2000)
      if is_neg got
          then pure got
          else if is_pos got
          then pure (pos 0)
          else send_loop rounds sock gw message)

  -- `tv`, or the time of day if `tv` is NULL
  unfoldable pub time_to_send : Option Timeval → Cmd (ℤ × Timeval)
  time_to_send (some tv) = pure (pos 0, tv)
  time_to_send none = do r ← call gettimeofday; pure (r.value, r.time)

  unfoldable pub send_time : ℕ → Option MySocket → Option Timeval → Option (List ℕ) → Cmd ℤ
  send_time rounds sock tv suffix = do
    g ← get_globals
    if g.do_send_time
        then (do
          (rc, now) ← time_to_send tv
          if is_zero rc
              then (do
                (rc, gw) ← os_net_ip_get_gw stale_word
                if is_zero rc then send_loop rounds sock gw (time_message now suffix) else pure rc)
              else pure rc)
        else pure minus_one

  -- `print_timestamp`, less the line that it prints
  unfoldable pub print_timestamp : Cmd ℤ
  print_timestamp = do r ← call gettimeofday; pure r.value
