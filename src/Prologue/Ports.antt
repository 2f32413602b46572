-- ===== src/Prologue/Ports.antt =====
-- `fork_prologue` of server-common.c, with reports: the sockets and ports of the parent and of its
-- children.
use cloning_apps.Base.{
  ℕ, ℤ, zero, suc, pos, ◌+◌, ◌≡◌, refl, ap, sym, true, false, arith, is_zero, pos_part, minus_one,
  Bool-cases, inl, inr,
}
use cloning_apps.System.{Env, State, Trace, stale_int, Cmd}
use cloning_apps.Globals.{Globals}
use cloning_apps.System.Ends
use cloning_apps.System.Ends.{Ends}
use cloning_apps.Net.{MySocket}
use cloning_apps.Net.Sockets.{SocketCalls}
use cloning_apps.Prologue.{
  Round, goto_out, body_end, Prologue, port_minus, fork_round, after_round, fork_loop,
  fork_prologue,
}
use cloning_apps.Prologue.Fork.{forks}
use cloning_apps.Prologue.Sockets.{HasSocket, Limit, RoundSockets, ForkSockets, ForkSockets-later}
use cloning_apps.Prologue.Rounds.{fork_round-RoundSockets}

module _ ⦃env : Env⦄ (h : SocketCalls env) (t : Trace) (rounds : ℕ) where
  after_round-ForkSockets :
      (r : Round) (next : ℤ → ℤ → MySocket → ℕ → Cmd Prologue) (left n : ℕ) (mysock : MySocket)
      (myport : ℕ) (g : Globals) (s : State)
      → RoundSockets t mysock (port_minus myport 1) (suc n) g r s
      → ((pid : ℤ)
          → is_zero pid ≡ false
          → HasSocket t mysock s
          → forks s.trace ≡ suc n
          → s.globals ≡ g
          → Ends
              (ForkSockets t left (suc n) mysock (port_minus myport 1))
              (Limit t)
              (next (pos 0) pid mysock (port_minus myport 1) s))
      → Ends (ForkSockets t (suc left) n mysock myport) (Limit t) (after_round rounds r next s)
  unfolding after_round
  after_round-ForkSockets (goto_out rc sock) next left n mysock myport g s o more = o
  after_round-ForkSockets (body_end rc pid sock port) next left n mysock myport g s
        (e, has, low, named, f, same) more =
      elim (Bool-cases (is_zero pid)) [
        | inl child ↦
            rw child
              (e, has, 1, omega arith, omega arith, omega arith, omega (arith, rw child at named))
        | inr parent ↦
            rw (parent, e, low, (rw parent at named))
              (Ends.mono _ _ _ _ (next (pos 0) pid mysock (port_minus myport 1) s)
                (more pid parent (rw (rw parent at named) at has) f same)
                (λ r s' o. ForkSockets-later t left n (suc n) mysock myport r s' refl o) λ s' o. o)
      ]

  -- A loop with a round to go, whatever `rc` and `pid` hold before it.
  fork_loop-ForkSockets_first :
      (left i : ℕ) (rc pid : ℤ) (mysock : MySocket) (myport : ℕ) (s : State)
      → s.globals.do_send_time ≡ true
      → HasSocket t mysock s
      → ((pid : ℤ) (s1 : State)
          → is_zero pid ≡ false
          → HasSocket t mysock s1
          → forks s1.trace ≡ suc (forks s.trace)
          → s1.globals.do_send_time ≡ true
          → Ends
              (ForkSockets t left (suc (forks s.trace)) mysock (port_minus myport 1))
              (Limit t)
              (fork_loop rounds left (i + 1) (pos 0) pid mysock (port_minus myport 1) s1))
      → Ends
          (ForkSockets t (suc left) (forks s.trace) mysock myport)
          (Limit t)
          (fork_loop rounds (suc left) i rc pid mysock myport s)
  unfolding fork_loop
  fork_loop-ForkSockets_first left i rc pid mysock myport s reports has more =
      Ends.bind _ _ _ (fork_round rounds i mysock myport s) _
        (fork_round-RoundSockets h t rounds i mysock myport s reports has)
        λ r s1 o.
          after_round-ForkSockets r (fork_loop rounds left (i + 1)) left (forks s.trace) mysock
            myport s.globals s1 o λ pid' parent has' f same. more pid' s1 parent has' f (cc)

  fork_loop-ForkSockets :
      (left i n : ℕ) (pid : ℤ) (mysock : MySocket) (myport : ℕ) (s : State)
      → s.globals.do_send_time ≡ true
      → is_zero pid ≡ false
      → HasSocket t mysock s
      → forks s.trace ≡ n
      → Ends
          (ForkSockets t left n mysock myport)
          (Limit t)
          (fork_loop rounds left i (pos 0) pid mysock myport s)
  fork_loop-ForkSockets zero i n pid mysock myport s reports parent has f =
      unfold fork_loop in rw parent (refl, has, refl, omega arith)
  fork_loop-ForkSockets (suc left) i n pid mysock myport s reports parent has f = rw (sym f) (
      fork_loop-ForkSockets_first left i (pos 0) pid mysock myport s reports has
        λ pid' s1 parent' has' f' reports'.
          fork_loop-ForkSockets left (i + 1) (suc (forks s.trace)) pid' mysock (port_minus myport 1)
            s1 reports' parent' has' f')

  -- If `setsockopt` succeeds and `bind` never returns a positive number, then with reports and at
  -- least one child to make, from a state with one open socket: the child of the k-th fork has
  -- closed that socket and has one that is bound to the port k below `myport`; the parent, after
  -- `children_num` forks, still has its own; and when nothing is written to `*is_child`, a socket
  -- is open if the code is 0, and at most one if it is not.
  pub fork_prologue-ForkSockets :
      (mysock : MySocket) (myport n : ℕ) (s : State)
      → s.globals.do_send_time ≡ true
      → s.globals.children_num ≡ pos (suc n)
      → HasSocket t mysock s
      → Ends
          (ForkSockets t (suc n) (forks s.trace) mysock myport)
          (Limit t)
          (fork_prologue rounds mysock myport s)
  unfolding fork_prologue
  fork_prologue-ForkSockets mysock myport n s reports children has =
      let e : pos_part s.globals.children_num ≡ suc n = ap pos_part children in
      rw e (
        fork_loop-ForkSockets_first n 0 stale_int minus_one mysock myport s reports has
          λ pid s1 parent has' f reports'.
            fork_loop-ForkSockets n 1 (suc (forks s.trace)) pid mysock (port_minus myport 1) s1
              reports' parent has' f)
