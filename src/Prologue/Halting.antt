-- ===== src/Prologue/Halting.antt =====
-- That the prologues of server-common.c come to an end on a system that falls silent.
use cloning_apps.Base.{
  ℕ, ℤ, zero, suc, pos, minus_one, ◌+◌, ◌-◌, ◌%◌, ◌^◌, ◌<◌, Bool-cases, inl, inr, ◌∷◌, Option, none,
  some, arith, is_zero, is_neg, is_pos, ◌==ℤ◌, to_u32, pos_part,
}
use cloning_apps.System.{Env, State, Trace, Reply, Timeval, Cmd, dgram, gettimeofday, fork, event}
use cloning_apps.System.Halts
use cloning_apps.System.Halts.{Halts}
use cloning_apps.Net.{MySocket, mysocket_open, mysocket_fini}
use cloning_apps.Net.Datagram.{stale_socket}
use cloning_apps.Time.{send_time, timersub}
use cloning_apps.Time.Halting.{send_time-Halts}
use cloning_apps.Clone.{os_clone, os_get_self_id, forbid_cloning}
use cloning_apps.Prologue.{
  Round, goto_out, body_end, Prologue, reopen_socket, report_fork, fork_round, after_round,
  fork_loop, fork_prologue, report_clone, clone_prologue, open_and_report, server_prologue,
  port_minus, port_parent, parent_suffix, child_suffix, int_of_u32,
}
use cloning_apps.Servers.Returns.Calls.{Silent}

module _ ⦃env : Env⦄ where
  open_socket-Halts :
      (sock : MySocket) (port : ℕ) (s : State) → Halts (mysocket_open sock dgram port s)
  unfolding mysocket_open
  open_socket-Halts sock port s = ground arith

  close_socket-Halts : (sock : Option MySocket) (s : State) → Halts (mysocket_fini sock s)
  unfolding mysocket_fini
  close_socket-Halts none s = tt
  close_socket-Halts (some sock) s = ground arith

  pub os_clone-Halts : (nr_children : ℕ) (s : State) → Halts (os_clone nr_children s)
  unfolding os_clone forbid_cloning
  os_clone-Halts nr_children s = ground arith

  self_id-Halts : (s : State) → Halts (os_get_self_id s)
  unfolding os_get_self_id
  self_id-Halts s = ground arith

  reopen_socket-Halts :
      (rounds : ℕ) (sock : MySocket) (port : ℕ) (s : State)
      → Halts (reopen_socket rounds sock port s)
  unfolding reopen_socket
  reopen_socket-Halts rounds sock port s =
      Halts.bind (mysocket_fini (some sock) s) _ (close_socket-Halts (some sock) s)
        λ rc s1. Halts.branch (is_zero rc) _ _ s1 (λ _. open_socket-Halts sock port s1) λ _. tt

module _ ⦃env : Env⦄ (n : ℕ) (silent : Silent env n) (rounds : ℕ) (enough : n < rounds) where
  report_fork-Halts :
      (i : ℕ) (rc pid : ℤ) (sock : MySocket) (port : ℕ) (res : Timeval) (s : State)
      → Halts (report_fork rounds i rc pid sock port res s)
  unfolding report_fork
  report_fork-Halts i rc pid sock port res s =
      Halts.branch (is_pos pid) _ _ s
        (λ _.
          Halts.bind (send_time rounds (some sock) (some res) (some (parent_suffix (pos i))) s) _
            (send_time-Halts n silent rounds sock (some res) (some (parent_suffix (pos i))) s
              enough)
            λ _ _. tt)
        λ _.
          Halts.bind (reopen_socket rounds sock port s) _ (reopen_socket-Halts rounds sock port s)
            λ (rc', sock') s1.
              Halts.branch (is_zero rc') _ _ s1
                (λ _.
                  Halts.bind
                    (send_time rounds (some sock') (some res) (some (child_suffix (pos i))) s1) _
                    (send_time-Halts n silent rounds sock' (some res) (some (child_suffix (pos i)))
                      s1 enough)
                    λ _ _. tt)
                λ _. tt

  fork_round-Halts :
      (i : ℕ) (sock : MySocket) (port : ℕ) (s : State) → Halts (fork_round rounds i sock port s)
  unfolding fork_round
  fork_round-Halts i sock port s = elim (Bool-cases (is_zero before.value)) [
    | inr bad ↦ rw bad tt
    | inl good ↦ rw good (elim (Bool-cases (is_neg child.value)) [
      | inl failed ↦ rw failed tt
      | inr forked ↦ rw forked (elim (Bool-cases (is_zero after.value)) [
        | inr bad ↦ rw bad tt
        | inl good' ↦ rw good' (
            Halts.branch s.globals.do_send_time _ _ s3
              (λ _.
                report_fork-Halts i after.value child.value sock (port_minus port 1)
                  (timersub after.time before.time) s3)
              λ _. tt)
      ])
    ])
  ]
    where
      before : Reply
      before = env.answer s.trace gettimeofday

      t1 : Trace
      t1 = event gettimeofday before ∷ s.trace

      child : Reply
      child = env.answer t1 fork

      after : Reply
      after = env.answer (event fork child ∷ t1) gettimeofday

      s3 : State
      s3 = record s { trace = event gettimeofday after ∷ event fork child ∷ t1 }

  after_round-Halts :
      (r : Round) (next : ℤ → ℤ → MySocket → ℕ → Cmd Prologue) (s : State)
      → ((rc pid : ℤ) (sock : MySocket) (port : ℕ) (s' : State) → Halts (next rc pid sock port s'))
      → Halts (after_round rounds r next s)
  unfolding after_round
  after_round-Halts (goto_out rc sock) next s others = tt
  after_round-Halts (body_end rc pid sock port) next s others =
      Halts.branch (is_zero pid) _ _ s (λ _. tt) λ _. others rc pid sock port s

  fork_loop-Halts :
      (left i : ℕ) (rc pid : ℤ) (sock : MySocket) (port : ℕ) (s : State)
      → Halts (fork_loop rounds left i rc pid sock port s)
  unfolding fork_loop
  fork_loop-Halts zero i rc pid sock port s = tt
  fork_loop-Halts (suc left) i rc pid sock port s =
      Halts.bind (fork_round rounds i sock port s) _ (fork_round-Halts i sock port s) λ r s'.
        after_round-Halts r (fork_loop rounds left (i + 1)) s' (fork_loop-Halts left (i + 1))

  report_clone-Halts :
      (id : ℕ) (rc rc_clone : ℤ) (sock : MySocket) (port : ℕ) (res : Timeval) (s : State)
      → Halts (report_clone rounds id rc rc_clone sock port res s)
  unfolding report_clone
  report_clone-Halts id rc rc_clone sock port res s =
      Halts.branch (is_zero rc_clone) _ _ s
        (λ _.
          Halts.bind
            (send_time rounds (some sock) (some res) (some (parent_suffix (int_of_u32 id))) s) _
            (send_time-Halts n silent rounds sock _ _ s enough) λ _ _. tt)
        λ _.
          Halts.branch (rc_clone ==ℤ pos 1) _ _ s
            (λ _.
              Halts.bind (mysocket_fini (some sock) s) _ (close_socket-Halts (some sock) s)
                λ rc' s1.
                  Halts.branch (is_zero rc') _ _ s1
                    (λ _. Halts.bind (os_get_self_id s1) _ (self_id-Halts s1) λ myid s2.
                      let index = (myid + 2 ^ 32 - id) % 2 ^ 32 in
                      Halts.bind (mysocket_open sock dgram (port_minus port index) s2) _
                        (open_socket-Halts sock (port_minus port index) s2)
                        λ (rc'', sock') s3.
                          Halts.branch (is_zero rc'') _ _ s3
                            (λ _.
                              Halts.bind
                                (send_time rounds (some sock') (some res)
                                  (some (child_suffix (int_of_u32 index))) s3)
                                _ (send_time-Halts n silent rounds sock' _ _ s3 enough) λ _ _. tt)
                            λ _. tt)
                    λ _. tt)
            λ _. tt

  clone_prologue-Halts :
      (sock : MySocket) (port : ℕ) (s : State) → Halts (clone_prologue rounds sock port s)
  unfolding clone_prologue
  clone_prologue-Halts sock port s = Halts.bind (os_get_self_id s) _ (self_id-Halts s) λ id s0.
      let before : Reply = env.answer s0.trace gettimeofday in
      let s1 : State = record s0 { trace = event gettimeofday before ∷ s0.trace } in
      elim (Bool-cases (is_zero before.value)) [
        | inr bad ↦ rw bad tt
        | inl good ↦ rw good (
            let count = to_u32 s0.globals.children_num in
            Halts.bind (os_clone count s1) _ (os_clone-Halts count s1) λ rc s2.
              let after : Reply = env.answer s2.trace gettimeofday in
              let s3 : State = record s2 { trace = event gettimeofday after ∷ s2.trace } in
              Halts.branch (is_neg rc) _ _ s2 (λ _. tt)
                λ _. elim (Bool-cases (is_zero after.value)) [
                  | inr bad ↦ rw bad tt
                  | inl good' ↦ rw good' (
                      Halts.branch s2.globals.do_send_time _ _ s3
                        (λ _.
                          report_clone-Halts id after.value rc sock port
                            (timersub after.time before.time) s3)
                        λ _. tt)
                ])
      ]

  open_and_report-Halts : (s : State) → Halts (open_and_report rounds s)
  unfolding open_and_report
  open_and_report-Halts s =
      Halts.branch s.globals.do_send_time _ _ s
        (λ _.
          Halts.bind (mysocket_open stale_socket dgram port_parent s) _
            (open_socket-Halts stale_socket port_parent s)
            λ (rc, su) s1.
              Halts.branch (is_zero rc) _ _ s1
                (λ _.
                  Halts.bind (send_time rounds (some su) none none s1) _
                    (send_time-Halts n silent rounds su none none s1 enough) λ _ _. tt)
                λ _. tt)
        λ _. tt

  -- If from `n` calls on nothing can be received, `n + 1` rounds are enough for `server_prologue`,
  -- also in the processes that it forks or clones: it comes to an end.
  pub server_prologue-Halts : (s : State) → Halts (server_prologue rounds s)
  unfolding server_prologue fork_prologue
  server_prologue-Halts s =
      Halts.bind (open_and_report rounds s) _ (open_and_report-Halts s) λ (rc, su, myport) s1.
        Halts.branch (is_zero rc) _ _ s1
          (λ _.
            Halts.branch s1.globals.do_fork _ _ s1
              (λ _.
                Halts.bind (fork_prologue rounds su myport s1) _
                  (fork_loop-Halts (pos_part s1.globals.children_num) 0 env.stale_int minus_one su
                    myport s1)
                  λ _ _. tt)
              λ _.
                Halts.branch s1.globals.do_clone _ _ s1
                  (λ _.
                    Halts.bind (clone_prologue rounds su myport s1) _
                      (clone_prologue-Halts su myport s1) λ _ _. tt)
                  λ _.
                    Halts.bind (mysocket_fini (some su) s1) _ (close_socket-Halts (some su) s1)
                      λ _ _. tt)
          λ _. tt
