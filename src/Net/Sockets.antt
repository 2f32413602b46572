-- ===== src/Net/Sockets.antt =====
-- What `mysocket_init` and `mysocket_fini` of common/net.c do with descriptors.
use cloning_apps.Base.{
  ℕ, ℤ, pos, ◌≡◌, false, arith, if◌then◌else◌, is_neg, is_zero, is_pos, ◌∷◌, inl, inr, Bool-cases,
}
use cloning_apps.System.{
  Env, State, Trace, SockAddr, SockType, socket, reuse_addr, bind, event, Reply,
}
use cloning_apps.System.Ends
use cloning_apps.System.Ends.{Ends, Never}
use cloning_apps.System.Ledger.{Holds, Balanced}
use cloning_apps.Net.{MySocket, set_reuse_addr, bind_port, mysocket_open, servaddr_init, inaddr_any}

-- What the manual pages say of two calls: `setsockopt(SO_REUSEADDR)` returns 0, as it does unless
-- it fails, and `bind` returns 0 or a negative number.
pub record SocketCalls (env : Env) : Type 0 where
  pub reuse : (t : Trace) (d : ℤ) → (env.answer t (reuse_addr d)).value ≡ pos 0
  pub bind_code :
      (t : Trace) (d : ℤ) (a : SockAddr) → is_pos (env.answer t (bind d a)).value ≡ false

-- A socket is handed over if the code is 0, and nothing is kept if it is not.
abbrev pub Opened : ℤ → ℕ → Trace → ℤ × MySocket → State → Type 0
Opened fd p t (rc, sock) s' =
    if is_zero rc
    then (is_neg sock.s ≡ false) × Holds fd p sock.s 0 t s'.trace
    else Balanced fd p t s'.trace

module _ ⦃env : Env⦄ (fd : ℤ) (p : ℕ) (h : SocketCalls env) where
  set_reuse_addr-Ends :
      (d : ℤ) (t : Trace) (s : State)
      → Holds fd p d 0 t s.trace
      → Ends (λ rc s'. (rc ≡ pos 0) × Holds fd p d 0 t s'.trace) Never (set_reuse_addr d s)
  unfolding set_reuse_addr
  set_reuse_addr-Ends d t s held = ground (arith, h.reuse s.trace d)

  bind_port-Opened :
      (sock : MySocket) (port : ℕ) (t : Trace) (s : State)
      → is_neg sock.s ≡ false
      → Holds fd p sock.s 0 t s.trace
      → Ends (Opened fd p t) Never (bind_port sock (pos 0) port s)
  unfolding bind_port
  bind_port-Opened sock port t s valid held =
      ground (arith, h.bind_code s.trace sock.s (servaddr_init inaddr_any port))

  -- If `setsockopt` succeeds and `bind` never returns a positive number, `mysocket_init` of a
  -- structure that is there either hands over one open socket with code 0, or has closed what it
  -- opened.
  pub mysocket_open-Opened :
      (sock : MySocket) (type : SockType) (port : ℕ) (s : State)
      → Ends (Opened fd p s.trace) Never (mysocket_open sock type port s)
  unfolding mysocket_open
  mysocket_open-Opened sock type port s = elim (Bool-cases (is_neg r.value)) [
    | inl bad ↦ ground arith
    | inr good ↦ rw good (
        Ends.bind (λ rc s'. (rc ≡ pos 0) × Holds fd p r.value 0 s.trace s'.trace) Never
          (Opened fd p s.trace)
          (set_reuse_addr r.value (record s { trace = event (socket type) r ∷ s.trace }))
          (λ rc. bind_port (record sock { s = r.value }) rc port)
          (set_reuse_addr-Ends r.value s.trace _ (ground arith))
          λ rc s' (e, held). rw e (bind_port-Opened _ port s.trace s' good held))
  ]
    where
      r : Reply
      r = env.answer s.trace (socket type)
