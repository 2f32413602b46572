-- ===== src/Prologue/Sockets.antt =====
-- The datagram socket of the prologue in server-common.c, with reports: which process has it open,
-- and at which port.
use cloning_apps.Base.{
  ℕ, ℤ, ◌<◌, ◌≤◌, ◌%◌, ◌^◌, suc, pos, ◌+◌, ◌≡◌, refl, Bool, true, false, Option, none, some, arith,
  is_neg, is_zero, if◌then◌else◌, Bool-cases, inl, inr, minus_one,
}
use cloning_apps.System.{Env, State, Trace, SockType, dgram}
use cloning_apps.Globals.{Globals}
use cloning_apps.System.Ends
use cloning_apps.System.Ends.{Ends, Never}
use cloning_apps.System.Ledger.{Even, Owns, no_books, Even-Owns}
use cloning_apps.Net.{MySocket, mysocket_open, mysocket_fini, set_reuse_addr, bind_port}
use cloning_apps.Net.Sockets.{SocketCalls, mysocket_open-Opened}
use cloning_apps.Prologue.{Round, goto_out, body_end, port_minus, reopen_socket}
use cloning_apps.Prologue.Fork.{forks}

-- The port is `k` below `myport`, as an `unsigned short`.
abbrev pub Below : ℕ → ℕ → ℕ → Type 0
Below k port myport = (port < 2 ^ 16) × ((port + k) % 2 ^ 16 ≡ myport % 2 ^ 16)

module _ ⦃env : Env⦄ where
  mysocket_open-port :
      (sock : MySocket) (type : SockType) (port : ℕ) (s : State)
      → Ends
          (λ (rc, sock') s'.
            (if is_zero rc then sock'.port ≡ port else Unit)
            × (forks s'.trace ≡ forks s.trace)
            × (s'.globals ≡ s.globals))
          Never
          (mysocket_open sock type port s)
  unfolding mysocket_open set_reuse_addr bind_port
  mysocket_open-port sock type port s = ground arith

module _ (t : Trace) where
  -- The socket is open, and it is all that was acquired since `t`.
  abbrev pub HasSocket : MySocket → State → Type 0
  HasSocket sock s' = (is_neg sock.s ≡ false) × Owns sock.s 0 t s'.trace

  -- Where a run is stopped, the process has at most one socket open.
  abbrev pub Limit : State → Type 0
  Limit s' = (d : ℤ) × Owns d 0 t s'.trace

  -- What a round leaves, with its number of forks: on the way to `out` an open socket if the code is 0, and at most one if it
  -- is not; at its end a socket, which is the one before the round in the parent and has a port of
  -- its own in the child.
  abbrev pub RoundSockets : MySocket → ℕ → ℕ → Globals → Round → State → Type 0
  RoundSockets mysock myport n g (goto_out rc sock) s' =
      if is_zero rc then HasSocket sock s' else Limit s'
  RoundSockets mysock myport n g (body_end rc pid sock port) s' =
      (rc ≡ pos 0)
      × HasSocket sock s'
      × (port ≡ myport)
      × (if is_zero pid then sock.port ≡ myport else sock ≡ mysock)
      × (forks s'.trace ≡ n)
      × (s'.globals ≡ g)

  -- What the loop leaves, with at most `left` forks after the first `n`: a child has a socket at a
  -- port of its own, the parent still has the socket that it was given, and a run that writes
  -- nothing to `*is_child` has an open socket if its code is 0, and at most one if it is not.
  abbrev pub ForkSockets : ℕ → ℕ → MySocket → ℕ → ℤ × Option Bool × MySocket → State → Type 0
  ForkSockets left n mysock myport (rc, some true, sock) s' =
      (rc ≡ pos 0)
      × HasSocket sock s'
      × (k : ℕ) × (1 ≤ k)
      × (k ≤ left)
      × (forks s'.trace ≡ n + k)
      × Below k sock.port myport
  ForkSockets left n mysock myport (rc, some false, sock) s' =
      (rc ≡ pos 0) × HasSocket mysock s' × (sock ≡ mysock) × (forks s'.trace ≡ n + left)
  ForkSockets left n mysock myport (rc, none, sock) s' =
      if is_zero rc then HasSocket sock s' else Limit s'

  pub ForkSockets-later :
      (left n n' : ℕ) (mysock : MySocket) (myport : ℕ) (r : ℤ × Option Bool × MySocket) (s : State)
      → n' ≡ suc n
      → ForkSockets left n' mysock (port_minus myport 1) r s
      → ForkSockets (suc left) n mysock myport r s
  ForkSockets-later left n n' mysock myport (rc, none, sock) s e o = o
  ForkSockets-later left n n' mysock myport (rc, some true, sock) s e (z, has, k, one, le, f, b) =
      (z, has, suc k, omega arith, omega arith, omega arith, omega (arith, b))
  ForkSockets-later left n n' mysock myport (rc, some false, sock) s e (z, has, same, f) =
      (z, has, same, omega arith)

module _ ⦃env : Env⦄ (h : SocketCalls env) (t : Trace) (rounds : ℕ) where
  -- The socket is open if the code is 0, and nothing is if it is not; no fork was made.
  abbrev pub Reopened : ℕ → State → ℤ × MySocket → State → Type 0
  Reopened port s (rc, sock) s' =
      (if is_zero rc then HasSocket t sock s' × (sock.port ≡ port) else Even t s'.trace)
      × (forks s'.trace ≡ forks s.trace)
      × (s'.globals ≡ s.globals)

  pub closed :
      (sock : MySocket) (s : State)
      → HasSocket t sock s
      → Ends
          (λ rc s'.
            (rc ≡ pos 0)
            × Even t s'.trace
            × (forks s'.trace ≡ forks s.trace)
            × (s'.globals ≡ s.globals))
          Never
          (mysocket_fini (some sock) s)
  unfolding mysocket_fini
  closed sock s (valid, held) =
      rw valid (refl, (λ (fd, p). omega (arith, held (fd, p))), omega arith, refl)

  pub opened :
      (sock : MySocket) (port : ℕ) (s : State)
      → Even t s.trace
      → Ends (Reopened port s) Never (mysocket_open sock dgram port s)
  opened sock port s even =
      Ends.mono _ _ _ _ (mysocket_open sock dgram port s)
        (Ends.both _ _ _ _ (mysocket_open sock dgram port s)
          (Ends.all_total no_books _ (mysocket_open sock dgram port s)
            λ b. mysocket_open-Opened b.0 b.1 h sock dgram port s)
          (mysocket_open-port sock dgram port s))
        (λ (rc, sock') s' (o, (named, f, g)). elim (Bool-cases (is_zero rc)) [
          | inl good ↦
              let has : HasSocket s.trace sock' s' =
                ((rw good at o no_books).0, λ b. (rw good at o b).1) in
              rw good (
                ((has.0, Even-Owns sock'.s 0 t s.trace s'.trace even has.1), rw good at named),
                f,
                g,
              )
          | inr bad ↦
              rw bad (Even-Owns minus_one 0 t s.trace s'.trace even λ b. rw bad at o b, f, g)
        ])
        λ _ (no_way, _). no_way

  pub reopen_socket-Reopened :
      (sock : MySocket) (port : ℕ) (s : State)
      → HasSocket t sock s
      → Ends (Reopened port s) Never (reopen_socket rounds sock port s)
  unfolding reopen_socket
  reopen_socket-Reopened sock port s has =
      Ends.bind_total _ _ _ (mysocket_fini (some sock) s) _ (closed sock s has)
        λ rc s1 (e, even, f, g). rw e (
          Ends.mono _ _ _ _ (mysocket_open sock dgram port s1) (opened sock port s1 even)
            (λ (rc', sock') s' (o, f', g'). (o, omega arith, cc)) λ _ no_way. no_way)
