-- ===== src/Files.antt =====
-- The file server and the simple file test, files.c.
pub mod Writers
pub mod Words
pub mod Create
pub mod Descriptors
pub mod Loop
pub mod Lifetime
pub mod Growth
pub mod Halting
pub mod Stop
use cloning_apps.Base.{
  ℕ, ℤ, zero, suc, pos, Bool, true, false, Option, none, some, List, [], ◌∷◌, ◌++◌, ◌+◌, ◌-◌, ◌*◌,
  ◌==◌, ◌==ℤ◌, ltb, if◌then◌else◌, is_neg, is_zero, minus_one, minus_enomem, codes, length, take,
  drop, has_prefix, le_bytes, pos_part,
}
use cloning_apps.System.{
  Env, Timespec, open_file, write, close, malloc, free, nanosleep, Cmd, pure, fault, out_of_fuel,
  ◌>>=◌, ◌>>◌, call, get_globals,
}
use cloning_apps.Net.{
  NetMsg, OsServer, default_server_port, fit, net_msg_cleanup, tcp_server_start, tcp_server_stop,
  tcp_server_accept, tcp_server_recv_msg,
}
use cloning_apps.Prologue.{server_prologue}
use cloning_apps.Servers.{stale_server}

-- `enum write_type`
pub data WriteType : Type 0 where
  write_chars_type write_words_type write_buffer_type : WriteType

-- `str_to_write_type`; `none` is its -1.
unfoldable pub str_to_write_type : List ℕ → Option WriteType
str_to_write_type str =
    if has_prefix (codes "write-chars") str
    then some write_chars_type
    else if has_prefix (codes "write-words") str
    then some write_words_type
    else if has_prefix (codes "write-buffer") str
    then some write_buffer_type
    else none

-- `unsigned long data = 0xdeadf00ddeadbeef`
abbrev pub word_data : ℕ
word_data = 0xdeadf00ddeadbeef

-- The second line that `simple_test` writes
abbrev pub second_line : Bool → Option Bool → List ℕ
second_line true (some true) = codes "child-after-fork\n"
second_line true _ = codes "parent-after-fork\n"
second_line false _ = codes "parent-without-fork\n"

-- `enum test_type`
pub data TestType : Type 0 where
  simple_test_type server_test_type : TestType

-- `my_test_type`, which nothing changes.
abbrev pub my_test_type : TestType
my_test_type = server_test_type

-- How a request of `run_server` leaves the two variables of the loop.
pub record Request : Type 0 where
  pub rc : ℤ
  pub keep_running : Bool

module _ ⦃env : Env⦄ where
  -- The loop of `write_chars`, with `left` characters to go.
  unfoldable pub write_chars : ℤ → ℕ → Cmd ℤ
  write_chars fd zero = pure (pos 0)
  write_chars fd (suc left) = do
    r ← call (write fd (b'a' ∷ []))
    if r.value ==ℤ pos 1 then write_chars fd left else pure r.value

  -- The loop of `write_words`. A write that is cut short fails the `assert`.
  unfoldable pub write_words_loop : ℕ → ℤ → ℕ → ℕ → Cmd ℤ
  write_words_loop zero fd size count = out_of_fuel
  write_words_loop (suc fuel) fd size count =
      if ltb count size
      then (do
        r ← call (write fd (le_bytes 8 word_data))
        if is_neg r.value
            then pure r.value
            else if r.value ==ℤ pos 8
            then write_words_loop fuel fd size (count + 8)
            else fault)
      else pure (pos 0)

  -- Every round counts eight bytes, so `size + 1` rounds are enough.
  unfoldable pub write_words : ℤ → ℕ → Cmd ℤ
  write_words fd size = write_words_loop (size + 1) fd size 0

  -- The loop of `write_buffer`. A write of nothing is made again, so the loop may not end.
  unfoldable pub write_buffer_loop : ℕ → ℤ → List ℕ → ℕ → ℕ → Cmd ℤ
  write_buffer_loop zero fd buf size offset = out_of_fuel
  write_buffer_loop (suc fuel) fd buf size offset =
      if ltb offset size
      then (do
        r ← call (write fd (take (size - offset) (drop offset buf)))
        if is_neg r.value
            then pure r.value
            else write_buffer_loop fuel fd buf size (offset + pos_part r.value))
      else pure (pos 0)

  -- An error leaves the buffer allocated.
  unfoldable pub write_buffer : ℕ → ℤ → ℕ → Cmd ℤ
  write_buffer fuel fd size = do
    buf ← call (malloc size)
    if buf.ptr == 0 then pure minus_enomem else (do
      rc ← write_buffer_loop fuel fd (fit size buf.bytes) size 0
      if is_neg rc then pure rc else (do call (free buf.ptr); pure (pos 0)))

  -- `functions[wt](fd, size)`
  unfoldable pub write_data : ℕ → ℤ → ℕ → WriteType → Cmd ℤ
  write_data fuel fd size write_chars_type = write_chars fd size
  write_data fuel fd size write_words_type = write_words fd size
  write_data fuel fd size write_buffer_type = write_buffer fuel fd size

  unfoldable pub create_file_write_data : ℕ → List ℕ → ℕ → WriteType → Cmd ℤ
  create_file_write_data fuel filename size wt = do
    f ← call (open_file filename true)
    if f.value ==ℤ minus_one
        then pure minus_one
        else (do rc ← write_data fuel f.value size wt; call (close f.value); pure rc)

  -- From the test of the `rc` that `str_to_write_type` gave, up to the label `cleanup`.
  unfoldable pub write_request : ℕ → Option WriteType → Cmd Request
  write_request fuel none = pure (record { rc = minus_one; keep_running = true })
  write_request fuel (some wt) = do
    rc ← create_file_write_data fuel (codes "/root/data") (4 * 1024 * 1024) wt
    pure (record { rc = rc; keep_running = is_zero rc })

  -- What `run_server` does with a message that it received, up to the label `cleanup`.
  unfoldable pub handle_request : ℕ → ℤ → NetMsg → Cmd Request
  handle_request fuel rc msg =
      if has_prefix (codes "stop") msg.contents
      then pure (record { rc = rc; keep_running = false })
      else write_request fuel (str_to_write_type msg.contents)

  -- The loop of `run_server`; the result is `rc` behind it.
  unfoldable pub serve_files : ℕ → OsServer → Cmd ℤ
  serve_files zero server = out_of_fuel
  serve_files (suc fuel) server = do
    (rc, msg) ← tcp_server_accept server
    if is_zero rc
        then (do
          (rc, msg) ← tcp_server_recv_msg msg
          if is_neg rc then net_msg_cleanup msg >> pure rc else (do
            r ← handle_request fuel rc msg
            net_msg_cleanup msg
            if r.keep_running then serve_files fuel server else pure r.rc))
        else pure rc

  -- What `run_server` does once `tcp_server_start` is back.
  unfoldable pub run_started : ℕ → ℤ → Option OsServer → Cmd ℤ
  run_started fuel rc none = pure rc
  run_started fuel rc (some server) =
      if is_zero rc
      then (do rc ← serve_files fuel server; tcp_server_stop (some server) >> pure rc)
      else pure rc

  unfoldable pub run_server : ℕ → Cmd ℤ
  run_server fuel = do
    (rc, server) ← tcp_server_start (some stale_server) default_server_port
    run_started fuel rc server

  -- `while (1) sleep(1);`
  unfoldable pub sleep_forever : ℕ → Cmd ℤ
  sleep_forever zero = out_of_fuel
  sleep_forever (suc fuel) = do
    call (nanosleep (record { sec = pos 1; nsec = pos 0 }))
    sleep_forever fuel

  unfoldable pub test_server : ℕ → ℕ → Cmd ℤ
  test_server rounds fuel = do
    (rc, is_child) ← server_prologue rounds
    if is_zero rc
        then (do
          g ← get_globals
          if g.do_fork
              then elim is_child [ some true ↦ run_server fuel | _ ↦ sleep_forever fuel ]
              else run_server fuel)
        else pure rc

  -- `SIMPLE_TEST_WRITE_STR(fd, str)`: 0, or what a write returned that fell short.
  unfoldable pub simple_test_write_str : ℤ → List ℕ → Cmd ℤ
  simple_test_write_str fd str = do
    r ← call (write fd str)
    pure (if r.value ==ℤ pos (length str) then pos 0 else r.value)

  -- The label `out_close` of `simple_test`
  unfoldable pub close_test_file : ℤ → ℤ → Cmd ℤ
  close_test_file fd rc = if is_neg fd then pure rc else do
    r ← call (close fd)
    pure (if is_zero r.value then rc else if is_zero rc then r.value else rc)

  unfoldable pub simple_test : ℕ → ℕ → Cmd ℤ
  simple_test rounds fuel = do
    f ← call (open_file (codes "/root/files/test") false)
    if f.value ==ℤ minus_one then pure minus_one else (do
      (rc, is_child) ← server_prologue rounds
      if is_zero rc
          then (do
            rc ← simple_test_write_str f.value (codes "parent\n")
            if is_zero rc
                then (do
                  g ← get_globals
                  rc ← simple_test_write_str f.value (second_line g.do_fork is_child)
                  if is_zero rc then sleep_forever fuel else close_test_file f.value rc)
                else close_test_file f.value rc)
          else close_test_file f.value rc)

  -- The `switch` of `thread_func_files`
  unfoldable pub run_test : ℕ → ℕ → TestType → Cmd ℤ
  run_test rounds fuel simple_test_type = simple_test rounds fuel
  run_test rounds fuel server_test_type = test_server rounds fuel

  unfoldable pub thread_func_files : ℕ → ℕ → Cmd ℤ
  unfolding run_test
  thread_func_files rounds fuel = run_test rounds fuel my_test_type
