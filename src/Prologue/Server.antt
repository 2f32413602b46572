-- ===== src/Prologue/Server.antt =====
-- `server_prologue` of server-common.c, with reports: its socket in every process that returns from
-- it.
use cloning_apps.Base.{
  ℕ, ℤ, ◌≤◌, suc, pos, ◌+◌, ◌≡◌, refl, true, false, Bool, Option, none, some, arith, is_zero,
  if◌then◌else◌, minus_one, Bool-cases, inl, inr,
}
use cloning_apps.System.{Env, State, Trace, dgram, and_then, pure, ◌>>=◌}
use cloning_apps.System.Ends
use cloning_apps.System.Ends.{Ends, Never}
use cloning_apps.System.Ledger.{Even, Owns-Even}
use cloning_apps.Net.{MySocket, mysocket_open, mysocket_fini}
use cloning_apps.Net.Sockets.{SocketCalls}
use cloning_apps.Time.{send_time}
use cloning_apps.Prologue.{
  port_parent, clone_prologue, open_and_report, fork_prologue, server_prologue,
}
use cloning_apps.Net.Datagram.{stale_socket}
use cloning_apps.Globals.{Globals}
use cloning_apps.Prologue.Fork.{forks}
use cloning_apps.Prologue.Reports.{send_time-Still}
use cloning_apps.Prologue.Sockets.{HasSocket, Limit, ForkSockets, closed, opened}
use cloning_apps.Prologue.Ports.{fork_prologue-ForkSockets}
use cloning_apps.Prologue.Ownership.{clone_prologue-Kept}

module _ (t : Trace) where
  -- A process that forked is the child of the k-th fork, or the parent after all forks; when nothing
  -- is written to `*is_child`, a socket is open if the code is 0, and at most one if it is not.
  abbrev pub ServerForked : ℕ → ℤ × Option Bool → State → Type 0
  ServerForked children (rc, some true) s' =
      (rc ≡ pos 0)
      × (sock : MySocket) × HasSocket t sock s'
      × (k : ℕ) × (1 ≤ k)
      × (k ≤ children)
      × (forks s'.trace ≡ forks t + k)
  ServerForked children (rc, some false) s' =
      (rc ≡ pos 0) × (sock : MySocket) × HasSocket t sock s' × (forks s'.trace ≡ forks t + children)
  ServerForked children (rc, none) s' =
      if is_zero rc then ((sock : MySocket) × HasSocket t sock s') else Limit t s'

  -- The outcome without `-f`: with code 0 a socket is open if there are clones, and none if not.
  abbrev pub OpenAfter : Bool → ℤ × Option Bool → State → Type 0
  OpenAfter clones (rc, _) s' =
      if is_zero rc
      then (if clones then ((sock : MySocket) × HasSocket t sock s') else Even t s'.trace)
      else Limit t s'

  ForkSockets-Forked :
      (n m : ℕ) (su : MySocket) (r : ℤ × Option Bool × MySocket) (s : State)
      → m ≡ forks t
      → ForkSockets t n m su 32767 r s
      → ServerForked n (r.0, r.1) s
  ForkSockets-Forked n m su (rc, some true, sock) s e (z, has, k, one, le, f, below) =
      (z, sock, has, k, one, le, omega arith)
  ForkSockets-Forked n m su (rc, some false, sock) s e (z, has, same, f) = (z, su, has, omega arith)
  ForkSockets-Forked n m su (rc, none, sock) s e o = elim (Bool-cases (is_zero rc)) [
    | inl good ↦ rw good (sock, rw good at o)
    | inr bad ↦ rw bad (rw bad at o)
  ]

module _ ⦃env : Env⦄ (h : SocketCalls env) (t : Trace) (rounds : ℕ) where
  -- What the first part of `server_prologue` leaves, with reports.
  abbrev Reports : Globals → ℕ → ℤ × MySocket × ℕ → State → Type 0
  Reports g n (rc, su, myport) s' =
      if is_zero rc
      then HasSocket t su s'
        × (su.port ≡ 32767)
        × (myport ≡ 32767)
        × (forks s'.trace ≡ n)
        × (s'.globals ≡ g)
      else Limit t s'

  open_and_report-Reports :
      (s : State)
      → s.globals.do_send_time ≡ true
      → Even t s.trace
      → Ends (Reports s.globals (forks s.trace)) (Limit t) (open_and_report rounds s)
  unfolding open_and_report
  open_and_report-Reports s reports even =
      Ends.branch _ _ s.globals.do_send_time _ _ s
        (λ _.
          Ends.bind_total _ _ _ (mysocket_open stale_socket dgram port_parent s) _
            (opened h t rounds stale_socket port_parent s even)
            λ (rc, su) s1 (o, f, same). elim (Bool-cases (is_zero rc)) [
              | inr bad ↦ rw bad (rw bad (minus_one, rw bad at o))
              | inl good ↦ rw good (sent su s1 (rw good at o).0 (rw good at o).1 f same)
            ])
        λ silent. cc
    where
      sent :
          (su : MySocket) (s1 : State)
          → HasSocket t su s1
          → su.port ≡ port_parent
          → forks s1.trace ≡ forks s.trace
          → s1.globals ≡ s.globals
          → Ends
              (Reports s.globals (forks s.trace))
              (Limit t)
              (and_then (send_time rounds (some su) none none s1) λ rc. pure (rc, su, port_parent))
      sent su s1 (valid, held) named f same =
          Ends.bind _ _ _ (send_time rounds (some su) none none s1) _
            (Ends.mono _ _ _ _ (send_time rounds (some su) none none s1)
              (send_time-Still rounds su none none s1) (λ _ s' q. q)
              λ s' q. (su.s, Owns-Even su.s 0 t s1.trace s'.trace held q.0))
            λ rc s' (b, f', same'). elim (Bool-cases (is_zero rc)) [
              | inl good ↦ rw good (
                (valid, Owns-Even su.s 0 t s1.trace s'.trace held b),
                named,
                refl,
                omega arith,
                cc,
              )
              | inr bad ↦ rw bad (su.s, Owns-Even su.s 0 t s1.trace s'.trace held b)
            ]

  -- What `server_prologue` does for `-x`, or for neither option.
  finished :
      (clones asked : Bool) (su : MySocket) (myport : ℕ) (s : State)
      → asked ≡ clones
      → HasSocket t su s
      → Ends (OpenAfter t clones) (Limit t) (
          (if asked
              then (do (rc, is_child, _) ← clone_prologue rounds su myport; pure (rc, is_child))
              else (do rc ← mysocket_fini (some su); pure (rc, none)))
            s)
  finished true true su myport s e has =
      Ends.bind _ _ _ (clone_prologue rounds su myport s) _
        (clone_prologue-Kept h t rounds su myport s has)
        λ (rc, c, sock) s' kept. elim (Bool-cases (is_zero rc)) [
          | inl good ↦ rw good (sock, rw good at kept)
          | inr bad ↦ rw bad (rw bad at kept)
        ]
  finished false false su myport s e has =
      Ends.bind_total _ _ _ (mysocket_fini (some su) s) _ (closed h t rounds su s has)
        λ rc s' (z, even, _, _). rw z even
  finished true false su myport s e has = cc
  finished false true su myport s e has = cc

  forked :
      (n : ℕ) (su : MySocket) (s : State)
      → s.globals.do_send_time ≡ true
      → s.globals.children_num ≡ pos (suc n)
      → HasSocket t su s
      → forks s.trace ≡ forks t
      → Ends
          (ServerForked t (suc n))
          (Limit t)
          (and_then (fork_prologue rounds su 32767 s) λ (rc, is_child, _). pure (rc, is_child))
  forked n su s reports children has f =
      Ends.bind _ _ _ (fork_prologue rounds su 32767 s) _
        (fork_prologue-ForkSockets h t rounds su 32767 n s reports children has)
        λ r s' o. ForkSockets-Forked t (suc n) (forks s.trace) su r s' f o

module _ ⦃env : Env⦄ (h : SocketCalls env) (rounds : ℕ) where
  -- If `setsockopt` succeeds and `bind` never returns a positive number, then with reports and
  -- without `-f`, when `server_prologue` returns 0 it has closed its socket if `-x` is not given,
  -- and left it open if it is. With another code, and where it is stopped, at most one descriptor
  -- is open, and nothing else is in use.
  pub server_prologue-OpenAfter :
      (s : State)
      → s.globals.do_send_time ≡ true
      → s.globals.do_fork ≡ false
      → Ends (OpenAfter s.trace s.globals.do_clone) (Limit s.trace) (server_prologue rounds s)
  unfolding server_prologue
  server_prologue-OpenAfter s reports single =
      Ends.bind _ _ _ (open_and_report rounds s) _
        (open_and_report-Reports h s.trace rounds s reports λ (fd, p). omega arith)
        λ (rc, su, myport) s1 o. elim (Bool-cases (is_zero rc)) [
          | inr bad ↦ rw bad (rw bad (rw bad at o))
          | inl good ↦
              let (has, named, port, f, same) = rw good at o in
              rw good (
                Ends.branch _ _ s1.globals.do_fork _ _ s1 (λ forked. cc)
                  λ _.
                    finished h s.trace rounds s.globals.do_clone s1.globals.do_clone su myport s1
                      (cc) has)
        ]

  pub server_prologue-ServerForked :
      (n : ℕ) (s : State)
      → s.globals.do_send_time ≡ true
      → s.globals.do_fork ≡ true
      → s.globals.children_num ≡ pos (suc n)
      → Ends (ServerForked s.trace (suc n)) (Limit s.trace) (server_prologue rounds s)
  unfolding server_prologue
  server_prologue-ServerForked n s reports forks_on children =
      Ends.bind _ _ _ (open_and_report rounds s) _
        (open_and_report-Reports h s.trace rounds s reports λ (fd, p). omega arith)
        λ (rc, su, myport) s1 o. elim (Bool-cases (is_zero rc)) [
          | inr bad ↦ rw bad (rw bad (rw bad at o))
          | inl good ↦
              let (has, named, port, f, same) = rw good at o in
              rw good (
                Ends.branch _ _ s1.globals.do_fork _ _ s1
                  (λ _. rw port (forked h s.trace rounds n su s1 (cc) (cc) has f)) λ single. cc)
        ]
