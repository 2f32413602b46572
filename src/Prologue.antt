-- ===== src/Prologue.antt =====
-- What the servers do before they serve, server-common.c: report the boot time, fork or clone.
-- `rounds` bounds the loop of `send_time`. Where a function writes through `is_child`, its result
-- has the written value; `none` is a path on which it writes nothing.
pub mod Fork
pub mod Reports
pub mod Sockets
pub mod Rounds
pub mod Ports
pub mod Ownership
pub mod Server
pub mod Codes
pub mod Halting
use cloning_apps.Base.{
  ℕ, ℤ, zero, suc, pos, negsuc, ltb, Bool, true, false, Option, none, some, List, ◌++◌, ◌+◌, ◌-◌,
  ◌%◌, ◌^◌, ◌==◌, if◌then◌else◌, is_neg, is_zero, is_pos, ◌==ℤ◌, minus_one, codes, show_int,
  pos_part, to_u32, not,
}
use cloning_apps.System.{
  Env, Timeval, dgram, gettimeofday, fork, Cmd, pure, ◌>>=◌, ◌>>◌, call, get_globals, stale_int,
  stale_word,
}
use cloning_apps.Net.{MySocket, mysocket_open, mysocket_fini}
use cloning_apps.Net.Datagram.{stale_socket}
use cloning_apps.Time.{timersub, send_time}
use cloning_apps.Clone.{os_clone, os_get_self_id}

-- `PORT_PARENT`
abbrev pub port_parent : ℕ
port_parent = 32767

-- `myport -= n` on an `unsigned short`
abbrev pub port_minus : ℕ → ℕ → ℕ
port_minus port n = (port + 2 ^ 32 - n) % 2 ^ 16

-- `%d` of an `unsigned int`
abbrev pub int_of_u32 : ℕ → ℤ
int_of_u32 n = if ltb n (2 ^ 31) then pos n else negsuc (2 ^ 32 - n - 1)

-- One round of the loop of `fork_prologue`: on to the label `out`, or to the end of the body.
pub data Round : Type 0 where
  goto_out : ℤ → MySocket → Round
  body_end : ℤ → ℤ → MySocket → ℕ → Round

-- What a prologue hands back: the code, the value written to `*is_child`, and the socket.
abbrev pub Prologue : Type 0
Prologue = ℤ × Option Bool × MySocket

-- `sprintf(suffix, "parent;%d", i)` and `sprintf(suffix, "child;%d", i)`
abbrev pub parent_suffix : ℤ → List ℕ
parent_suffix i = codes "parent;" ++ show_int i

abbrev pub child_suffix : ℤ → List ℕ
child_suffix i = codes "child;" ++ show_int i

module _ ⦃env : Env⦄ (rounds : ℕ) where
  -- A child gives up its parent's socket and opens one of its own.
  unfoldable pub reopen_socket : MySocket → ℕ → Cmd (ℤ × MySocket)
  reopen_socket mysock myport = do
    rc ← mysocket_fini (some mysock)
    if is_zero rc then mysocket_open mysock dgram myport else pure (rc, mysock)

  -- The branch `if (do_send_time)` of `fork_prologue`. What `send_time` returns is dropped.
  unfoldable pub report_fork : ℕ → ℤ → ℤ → MySocket → ℕ → Timeval → Cmd Round
  report_fork i rc pid mysock myport res =
      if is_pos pid
      then (do
        send_time rounds (some mysock) (some res) (some (parent_suffix (pos i)))
        pure (body_end rc pid mysock myport))
      else (do
        (rc, mysock) ← reopen_socket mysock myport
        if is_zero rc
            then (do
              send_time rounds (some mysock) (some res) (some (child_suffix (pos i)))
              pure (body_end rc pid mysock myport))
            else pure (goto_out rc mysock))

  unfoldable pub fork_round : ℕ → MySocket → ℕ → Cmd Round
  fork_round i mysock myport = do
    before ← call gettimeofday
    if is_zero before.value
        then (do
          child ← call fork
          if is_neg child.value then pure (goto_out before.value mysock) else (do
            after ← call gettimeofday
            if is_zero after.value
                then (do
                  g ← get_globals
                  if g.do_send_time
                      then report_fork i after.value child.value mysock (port_minus myport 1)
                          (timersub after.time before.time)
                      else pure (body_end after.value child.value mysock (port_minus myport 1)))
                else pure (goto_out after.value mysock)))
        else pure (goto_out before.value mysock)

  -- What follows a round: the label `out`, the `break` of a child, or the next round.
  unfoldable pub after_round : Round → (ℤ → ℤ → MySocket → ℕ → Cmd Prologue) → Cmd Prologue
  after_round (goto_out rc mysock) next = pure (rc, none, mysock)
  after_round (body_end rc pid mysock myport) next =
      if is_zero pid then pure (rc, some true, mysock) else next rc pid mysock myport

  -- The loop from round `i` on, with `left` rounds to go and the last `rc` and `pid`.
  unfoldable pub fork_loop : ℕ → ℕ → ℤ → ℤ → MySocket → ℕ → Cmd Prologue
  fork_loop zero i rc pid mysock myport = pure (rc, some (is_zero pid), mysock)
  fork_loop (suc left) i rc pid mysock myport = do
    r ← fork_round i mysock myport
    after_round r (fork_loop left (i + 1))

  unfoldable pub fork_prologue : MySocket → ℕ → Cmd Prologue
  fork_prologue mysock myport = do
    g ← get_globals
    fork_loop (pos_part g.children_num) 0 stale_int minus_one mysock myport

  -- The branch `if (do_send_time)` of `clone_prologue`.
  unfoldable pub report_clone : ℕ → ℤ → ℤ → MySocket → ℕ → Timeval → Cmd Prologue
  report_clone myparentid rc rc_clone mysock myport res =
      if is_zero rc_clone
      then (do
        send_time rounds (some mysock) (some res) (some (parent_suffix (int_of_u32 myparentid)))
        pure (rc, some (rc_clone ==ℤ pos 1), mysock))
      else if rc_clone ==ℤ pos 1
      then (do
        rc ← mysocket_fini (some mysock)
        if is_zero rc
            then (do
              myid ← os_get_self_id
              let index = (myid + 2 ^ 32 - myparentid) % 2 ^ 32
              (rc, mysock) ← mysocket_open mysock dgram (port_minus myport index)
              if is_zero rc
                  then (do
                    send_time rounds (some mysock) (some res)
                        (some (child_suffix (int_of_u32 index)))
                    pure (rc, some (rc_clone ==ℤ pos 1), mysock))
                  else pure (rc, none, mysock))
            else pure (rc, none, mysock))
      else pure (rc, none, mysock)

  unfoldable pub clone_prologue : MySocket → ℕ → Cmd Prologue
  clone_prologue mysock myport = do
    myparentid ← os_get_self_id
    before ← call gettimeofday
    if is_zero before.value
        then (do
          g ← get_globals
          rc_clone ← os_clone (to_u32 g.children_num)
          if is_neg rc_clone then pure (rc_clone, none, mysock) else (do
            after ← call gettimeofday
            if is_zero after.value
                then (do
                  g ← get_globals
                  if g.do_send_time
                      then report_clone myparentid after.value rc_clone mysock myport
                          (timersub after.time before.time)
                      else pure (after.value, some (rc_clone ==ℤ pos 1), mysock))
                else pure (after.value, none, mysock)))
        else pure (before.value, none, mysock)

  -- The part of `server_prologue` under its `if (do_send_time)`.
  unfoldable pub open_and_report : Cmd (ℤ × MySocket × ℕ)
  open_and_report = do
    g ← get_globals
    if g.do_send_time
        then (do
          (rc, su) ← mysocket_open stale_socket dgram port_parent
          if is_zero rc
              then (do rc ← send_time rounds (some su) none none; pure (rc, su, port_parent))
              else pure (rc, su, port_parent))
        else pure (pos 0, stale_socket, stale_word % 2 ^ 16)

  unfoldable pub server_prologue : Cmd (ℤ × Option Bool)
  server_prologue = do
    (rc, su, myport) ← open_and_report
    if is_zero rc
        then (do
          g ← get_globals
          if g.do_fork
              then (do (rc, is_child, _) ← fork_prologue su myport; pure (rc, is_child))
              else if g.do_clone
              then (do (rc, is_child, _) ← clone_prologue su myport; pure (rc, is_child))
              else (do rc ← mysocket_fini (some su); pure (rc, none)))
        else pure (rc, none)

  -- `app_resume`, which returns nothing
  unfoldable pub app_resume : Cmd (Unit {0})
  app_resume = do
    (rc, su) ← mysocket_open stale_socket dgram 6666
    if is_zero rc
        then (do send_time rounds (some su) none none; mysocket_fini (some su); pure tt)
        else pure tt
