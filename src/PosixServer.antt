-- ===== src/PosixServer.antt =====
-- The acknowledging server for the boot-time reports, posix-server.c. It prints what it receives.
pub mod Laws
pub mod Answers
use cloning_apps.Base.{
  ℕ, ℤ, zero, suc, pos, List, codes, ltb, if◌then◌else◌, is_neg, minus_one, pos_part,
}
use cloning_apps.System.{
  Env, SockAddr, dgram, socket, bind, recvfrom, sendto, Cmd, pure, fault, out_of_fuel, ◌>>=◌, ◌>>◌,
  call,
}

-- `PORT` and `MAXLINE`
abbrev pub server_port : ℕ
server_port = 5000

abbrev pub max_line : ℕ
max_line = 1024

module _ ⦃env : Env⦄ where
  -- The loop. `buffer[n] = '\0'` writes in the array only if `n` is less than its size.
  unfoldable pub acknowledge : ℕ → ℤ → Cmd ℤ
  acknowledge zero sockfd = out_of_fuel
  acknowledge (suc fuel) sockfd = do
    r ← call (recvfrom sockfd max_line)
    if is_neg r.value
        then pure minus_one
        else if ltb (pos_part r.value) max_line
        then (do
          sent ← call (sendto sockfd r.peer (codes "ACK"))
          if is_neg sent.value then pure minus_one else acknowledge fuel sockfd)
        else fault

  -- `main` of posix-server.c
  unfoldable pub posix_server : ℕ → Cmd ℤ
  unfolding acknowledge
  posix_server fuel = do
    sockfd ← call (socket dgram)
    if is_neg sockfd.value then pure minus_one else (do
      rc ← call (bind sockfd.value (record { addr = 0; port = server_port }))
      if is_neg rc.value then pure rc.value else acknowledge fuel sockfd.value)
