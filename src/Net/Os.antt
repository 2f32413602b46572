-- ===== src/Net/Os.antt =====
-- The network functions that each platform has its own version of: os/posix/net.c,
-- os/posix/net_posix.c, os/posix/net_unikraft.c and os/minios/net.c.
use cloning_apps.Base.{
  ℕ, ℤ, pos, quotient_1000, remainder_1000, thousandfold, codes, ◌==◌, ◌==ℤ◌, if◌then◌else◌, is_neg,
  sub_ℕ, minus_einval, minus_enodev,
}
use cloning_apps.System.{
  Env, posix, unikraft, minios, Timeval, recv_timeout, recv_timeout_ms, inet_aton, netdev_get,
  netdev_gateway, ip4addr_aton, minios_gateway, Cmd, pure, ◌>>=◌, call, get_platform, stale_word,
}

abbrev timeout_timeval : ℤ → Timeval
timeout_timeval ms = record { sec = quotient_1000 ms; usec = thousandfold (remainder_1000 ms) }

module _ ⦃env : Env⦄ where
  -- os/posix/net.c
  unfoldable pub os_socket_set_timeout_posix : ℤ → ℤ → Cmd ℤ
  os_socket_set_timeout_posix s timeout_ms = do
    r ← call (recv_timeout s (timeout_timeval timeout_ms))
    pure (if is_neg r.value then sub_ℕ 0 r.errno else r.value)

  -- os/minios/net.c
  unfoldable pub os_socket_set_timeout_minios : ℤ → ℤ → Cmd ℤ
  os_socket_set_timeout_minios s timeout_ms = do
    r ← call (recv_timeout_ms s timeout_ms)
    pure r.value

  unfoldable pub os_socket_set_timeout : ℤ → ℤ → Cmd ℤ
  unfolding os_socket_set_timeout_posix os_socket_set_timeout_minios
  os_socket_set_timeout s timeout_ms = elim get_platform [
    | minios ↦ os_socket_set_timeout_minios s timeout_ms
    | _ ↦ os_socket_set_timeout_posix s timeout_ms
  ]

  -- os/posix/net_posix.c. Each version returns the code and the address that `ip` then holds.
  unfoldable pub os_net_ip_get_gw_posix : Cmd (ℤ × ℕ)
  os_net_ip_get_gw_posix = do
    r ← call (inet_aton (codes "127.0.0.1"))
    pure (if r.value ==ℤ pos 1 then pos 0 else minus_einval, r.peer.addr)

  -- os/posix/net_unikraft.c. Where the network device has no gateway text, the local
  -- `gw` is used as it was declared. `ip` is what the caller's structure holds.
  unfoldable pub os_net_ip_get_gw_unikraft : ℕ → Cmd (ℤ × ℕ)
  os_net_ip_get_gw_unikraft ip = do
    d ← call netdev_get
    if d.ptr == 0 then pure (minus_enodev, ip) else do
      g ← call netdev_gateway
      if g.ptr == 0 then pure (pos 0, stale_word) else do
        r ← call ip4addr_aton
        pure (if r.value ==ℤ pos 1 then (pos 1, r.peer.addr) else (minus_einval, ip))

  -- os/minios/net.c
  unfoldable pub os_net_ip_get_gw_minios : Cmd (ℤ × ℕ)
  os_net_ip_get_gw_minios = do r ← call minios_gateway; pure (pos 0, r.peer.addr)

  unfoldable pub os_net_ip_get_gw : ℕ → Cmd (ℤ × ℕ)
  unfolding os_net_ip_get_gw_posix os_net_ip_get_gw_unikraft os_net_ip_get_gw_minios
  os_net_ip_get_gw ip = elim get_platform [
    | posix ↦ os_net_ip_get_gw_posix
    | unikraft ↦ os_net_ip_get_gw_unikraft ip
    | minios ↦ os_net_ip_get_gw_minios
  ]
