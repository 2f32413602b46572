-- ===== src/Prologue/Ownership.antt =====
-- `clone_prologue` of server-common.c: the socket that it was given, or the one that it opened for it,
-- stays open.
use cloning_apps.Base.{
  ℕ, ℤ, ◌∷◌, pos, Bool, Option, none, some, List, arith, is_zero, is_neg, ◌==ℤ◌, if◌then◌else◌,
  to_u32, minus_one, Bool-cases, inl, inr,
}
use cloning_apps.System.{Env, State, Trace, Timeval, dgram, gettimeofday, event, and_then, pure}
use cloning_apps.System.Ends
use cloning_apps.System.Ends.{Ends, Never}
use cloning_apps.System.Ledger.{Balanced, Even, no_books, Owns-Even, Even-Owns}
use cloning_apps.Net.{MySocket, mysocket_open, mysocket_fini}
use cloning_apps.Net.Sockets.{SocketCalls}
use cloning_apps.Time.{send_time, timersub}
use cloning_apps.Clone.{os_clone, os_get_self_id}
use cloning_apps.Prologue.Codes.{os_clone-Balanced}
use cloning_apps.Prologue.{report_clone, clone_prologue}
use cloning_apps.Prologue.Reports.{send_time-Still}
use cloning_apps.Prologue.Sockets.{HasSocket, Limit, closed, opened}

module _ ⦃env : Env⦄ (h : SocketCalls env) (t : Trace) (rounds : ℕ) where
  -- A socket is open if the code is 0, and at most one if it is not.
  abbrev pub Kept : ℤ × Option Bool × MySocket → State → Type 0
  Kept (rc, _, sock) s' = if is_zero rc then HasSocket t sock s' else Limit t s'

  HasSocket-Kept :
      (rc : ℤ) (c : Option Bool) (sock : MySocket) (s : State)
      → HasSocket t sock s
      → Kept (rc, c, sock) s
  HasSocket-Kept rc c sock s (valid, held) = elim (Bool-cases (is_zero rc)) [
    | inl good ↦ rw good (valid, held)
    | inr bad ↦ rw bad (sock.s, held)
  ]

  reported :
      (rc : ℤ) (c : Option Bool) (sock : MySocket) (res : Timeval) (text : List ℕ) (s : State)
      → HasSocket t sock s
      → Ends Kept
          (Limit t)
          (and_then (send_time rounds (some sock) (some res) (some text) s) λ _. pure (rc, c, sock))
  reported rc c sock res text s (valid, held) =
      Ends.bind _ _ _ (send_time rounds (some sock) (some res) (some text) s) _
        (Ends.mono _ _ _ _ (send_time rounds (some sock) (some res) (some text) s)
          (send_time-Still rounds sock (some res) (some text) s) (λ _ s' q. q)
          λ s' q. (sock.s, Owns-Even sock.s 0 t s.trace s'.trace held q.0))
        λ _ s' (b, _, _).
          HasSocket-Kept rc c sock s' (valid, Owns-Even sock.s 0 t s.trace s'.trace held b)

  HasSocket-later :
      (sock : MySocket) (s s' : State)
      → HasSocket t sock s
      → Even s.trace s'.trace
      → HasSocket t sock s'
  HasSocket-later sock s s' (valid, held) even =
      (valid, Owns-Even sock.s 0 t s.trace s'.trace held even)

  get_self_id-Balanced :
      (fd : ℤ) (p : ℕ) (s : State)
      → Ends (λ _ s'. Balanced fd p s.trace s'.trace) Never (os_get_self_id s)
  unfolding os_get_self_id
  get_self_id-Balanced fd p s = ground arith

  get_self_id-Even : (s : State) → Ends (λ _ s'. Even s.trace s'.trace) Never (os_get_self_id s)
  get_self_id-Even s =
      Ends.all_total no_books _ (os_get_self_id s) λ b. get_self_id-Balanced b.0 b.1 s

  report_clone-Kept :
      (myparentid : ℕ) (rc rc_clone : ℤ) (mysock : MySocket) (myport : ℕ) (res : Timeval)
      (s : State)
      → HasSocket t mysock s
      → Ends Kept (Limit t) (report_clone rounds myparentid rc rc_clone mysock myport res s)
  unfolding report_clone
  report_clone-Kept myparentid rc rc_clone mysock myport res s has =
      Ends.branch _ _ (is_zero rc_clone) _ _ s (λ parent. reported rc _ mysock res _ s has)
        λ _.
          Ends.branch _ _ (rc_clone ==ℤ pos 1) _ _ s
            (λ child.
              Ends.bind_total _ _ _ (mysocket_fini (some mysock) s) _
                (closed h t rounds mysock s has)
                λ rc' s1 (e, even, _, _).
                  Ends.branch _ _ (is_zero rc') _ _ s1
                    (λ _.
                      Ends.bind_total _ _ _ (os_get_self_id s1) _ (get_self_id-Even s1)
                        λ myid s2 even'.
                          Ends.bind_total _ _ _ (mysocket_open mysock dgram _ s2) _
                            (opened h t rounds mysock _ s2
                              (Even-Owns minus_one 0 t s1.trace s2.trace even even'))
                            λ (rc'', sock) s3 (o, _, _). elim (Bool-cases (is_zero rc'')) [
                              | inl good ↦ rw good (reported rc'' _ sock res _ s3 (rw good at o).0)
                              | inr bad ↦ rw bad (rw bad (minus_one, rw bad at o))
                            ])
                    λ bad. cc)
            λ _. HasSocket-Kept rc none mysock s has

  -- With a socket open, `clone_prologue` returns with a socket open if its code is 0, and with at
  -- most one if it is not, whatever the platform clones.
  pub clone_prologue-Kept :
      (mysock : MySocket) (myport : ℕ) (s : State)
      → HasSocket t mysock s
      → Ends Kept (Limit t) (clone_prologue rounds mysock myport s)
  unfolding clone_prologue
  clone_prologue-Kept mysock myport s has =
      Ends.bind_total _ _ _ (os_get_self_id s) _ (get_self_id-Even s) λ myid s1 even.
        let before = env.answer s1.trace gettimeofday in
        let s2 : State = record s1 { trace = event gettimeofday before ∷ s1.trace } in
        let has2 = HasSocket-later mysock s s2 has λ b. omega (arith, even b) in
        Ends.branch _ _ (is_zero before.value) _ _ s2
          (λ _.
            Ends.bind_total _ _ _ (os_clone (to_u32 s1.globals.children_num) s2) _
              (Ends.all_total no_books _ (os_clone (to_u32 s1.globals.children_num) s2)
                λ b. os_clone-Balanced b.0 b.1 (to_u32 s1.globals.children_num) s2)
              λ rc s3 even3.
                let has3 = HasSocket-later mysock s2 s3 has2 even3 in
                Ends.branch _ _ (is_neg rc) _ _ s3 (λ _. HasSocket-Kept rc none mysock s3 has3)
                  λ _.
                    let after = env.answer s3.trace gettimeofday in
                    let s4 : State = record s3 { trace = event gettimeofday after ∷ s3.trace } in
                    let has4 = HasSocket-later mysock s3 s4 has3 λ b. omega arith in
                    Ends.branch _ _ (is_zero after.value) _ _ s4
                      (λ _.
                        Ends.branch _ _ s3.globals.do_send_time _ _ s4
                          (λ _.
                            report_clone-Kept myid after.value rc mysock myport
                              (timersub after.time before.time) s4 has4)
                          λ _. HasSocket-Kept after.value (some (rc ==ℤ pos 1)) mysock s4 has4)
                      λ _. HasSocket-Kept after.value none mysock s4 has4)
          λ _. HasSocket-Kept before.value none mysock s2 has2
