-- ===== src/Prologue/Codes.antt =====
-- What `os_clone` and `clone_prologue` return, and the text buffers of the prologues in
-- server-common.c.
use cloning_apps.Base.{
  ℕ, ℤ, suc, pos, ◌+◌, ◌^◌, ◌≤◌, ◌<◌, ◌≡◌, ◌≢◌, refl, Bool, true, false, Option, none, some, List,
  ◌∷◌, arith, is_neg, is_zero, pos_part, neg_part, if◌then◌else◌, length, ◌==ℤ◌, ◌*◌,
}
use cloning_apps.System.{
  Env, State, Run, SockType, stale_word, Timeval, unikraft, event, clone, malloc, gettimeofday,
}
use cloning_apps.System.Ends
use cloning_apps.System.Ends.{Ends, Never}
use cloning_apps.System.Ledger.{Balanced}
use cloning_apps.Net.{MySocket, mysocket_open, mysocket_fini}
use cloning_apps.Time.{time_message, time_to_send, send_loop, send_time}
use cloning_apps.Time.Report.{send_loop-Acknowledged}
use cloning_apps.Net.Os.{os_net_ip_get_gw}
use cloning_apps.Time.Message.{length-show_int, length-time_message}
use cloning_apps.Clone.{os_clone, os_clone_guest, forbid_cloning, os_get_self_id}
use cloning_apps.Prologue.{
  Prologue, int_of_u32, parent_suffix, child_suffix, report_clone, clone_prologue,
}

-- Any time that `timersub` makes, with the suffix of any `int`, fits in the 64 bytes of `message`,
-- and the suffix with its NUL in the 32 bytes of `suffix`, for a parent and for a child.
pub suffix_fits :
    (tv : Timeval) (u : ℕ) (i : ℤ)
    → tv.usec ≡ pos u
    → u < 10 ^ 6
    → pos_part i < 2 ^ 31
    → neg_part i ≤ 2 ^ 31
    → (length (parent_suffix i) + 1 ≤ 32)
      × (length (child_suffix i) + 1 ≤ 32)
      × (length (time_message tv (some (parent_suffix i))) + 1 ≤ 64)
      × (length (time_message tv (some (child_suffix i))) + 1 ≤ 64)
suffix_fits tv u i e h lo hi =
    let n = length-show_int i lo hi in
    (
      omega (arith, n),
      omega (arith, n),
      length-time_message tv u (parent_suffix i) e h (omega (arith, n)),
      length-time_message tv u (child_suffix i) e h (omega (arith, n)),
    )

-- What a prologue has told its caller: `is_child` starts as 0.
abbrev pub told_child : Option Bool → Bool
told_child none = false
told_child (some b) = b

module _ ⦃env : Env⦄ where
  -- On every platform `os_clone` frees the array that it allocates, and opens and closes nothing.
  pub os_clone-Balanced :
      (fd : ℤ) (p nr_children : ℕ) (s : State)
      → Ends (λ _ s'. Balanced fd p s.trace s'.trace) Never (os_clone nr_children s)
  unfolding os_clone forbid_cloning
  os_clone-Balanced fd p nr_children s = ground arith

  -- When the hypervisor clones, `os_clone` on Mini-OS returns 0 to the parent and 1 to a child, and
  -- clears both flags in a child only. On Unikraft it returns 0 to both.
  pub os_clone_guest-codes :
      (child_code : ℤ) (n : ℕ) (s : State)
      → let m = malloc (2 * suc n) in
        let ids = env.answer s.trace m in
        let value = (env.answer (event m ids ∷ s.trace) (clone (suc n))).value in
        ids.ptr ≢ 0
        → Ends
            (λ rc s'.
              if is_zero value
              then (rc ≡ pos 0) × (s'.globals ≡ s.globals)
              else if value ==ℤ pos 1
              then (rc ≡ child_code)
                × (s'.globals ≡ record s.globals { do_fork = false; do_clone = false })
              else (is_neg rc ≡ true) × (s'.globals ≡ s.globals))
            Never
            (os_clone_guest child_code (suc n) s)
  unfolding os_clone_guest forbid_cloning
  os_clone_guest-codes child_code n s h = ground arith

  os_clone-not_child :
      (nr_children : ℕ) (s : State)
      → env.platform ≡ unikraft
      → Ends (λ rc s'. (rc ==ℤ pos 1) ≡ false) Never (os_clone nr_children s)
  unfolding os_clone forbid_cloning
  os_clone-not_child nr_children s e = ground arith

  -- A run that makes no fault.
  abbrev Safe : {A : Type 0} → Run A → Type 0
  Safe = Ends (λ _ _. Unit {0}) (λ _. Unit {0})

  time_to_send-Safe : (tv : Option Timeval) (s : State) → Safe (time_to_send tv s)
  unfolding time_to_send
  time_to_send-Safe (some tv) s = tt
  time_to_send-Safe none s = tt

  os_net_ip_get_gw-Safe : (ip : ℕ) (s : State) → Safe (os_net_ip_get_gw ip s)
  unfolding os_net_ip_get_gw
  os_net_ip_get_gw-Safe ip s = ground arith

  mysocket_open-Safe :
      (sock : MySocket) (type : SockType) (port : ℕ) (s : State)
      → Safe (mysocket_open sock type port s)
  unfolding mysocket_open
  mysocket_open-Safe sock type port s = ground arith

  mysocket_fini-Safe : (sock : MySocket) (s : State) → Safe (mysocket_fini (some sock) s)
  unfolding mysocket_fini
  mysocket_fini-Safe sock s = ground arith

  os_get_self_id-Safe : (s : State) → Safe (os_get_self_id s)
  unfolding os_get_self_id
  os_get_self_id-Safe s = ground arith

  send_time-Safe :
      (rounds : ℕ) (sock : MySocket) (tv : Option Timeval) (suffix : Option (List ℕ)) (s : State)
      → Safe (send_time rounds (some sock) tv suffix s)
  unfolding send_time
  send_time-Safe rounds sock tv suffix s =
      Ends.branch _ _ s.globals.do_send_time _ _ s
        (λ _. Ends.bind _ _ _ (time_to_send tv s) _ (time_to_send-Safe tv s) λ (rc, now) s1 _.
          Ends.branch _ _ (is_zero rc) _ _ s1
            (λ _.
              Ends.bind _ _ _ (os_net_ip_get_gw stale_word s1) _
                (os_net_ip_get_gw-Safe stale_word s1)
                λ (rc, gw) s2 _.
                  Ends.branch _ _ (is_zero rc) _ _ s2
                    (λ _.
                      Ends.mono _ _ _ _
                        (send_loop rounds (some sock) gw (time_message now suffix) s2)
                        (send_loop-Acknowledged rounds sock gw (time_message now suffix) s2)
                        (λ a s' h. tt) (λ s' h. tt))
                    λ _. tt)
            λ _. tt)
        λ _. tt

  -- The caller of `clone_prologue` is told that it is the parent.
  abbrev pub ToldParent : Run Prologue → Type 0
  ToldParent = Ends (λ (_, is_child, _) _. told_child is_child ≡ false) (λ _. Unit {0})

  report_clone-ToldParent :
      (rounds id : ℕ) (rc rc_clone : ℤ) (sock : MySocket) (port : ℕ) (res : Timeval) (s : State)
      → (rc_clone ==ℤ pos 1) ≡ false
      → ToldParent (report_clone rounds id rc rc_clone sock port res s)
  unfolding report_clone
  report_clone-ToldParent rounds id rc rc_clone sock port res s e =
      Ends.branch _ _ (is_zero rc_clone) _ _ s
        (λ _.
          Ends.bind _ _ _
            (send_time rounds (some sock) (some res) (some (parent_suffix (int_of_u32 id))) s) _
            (send_time-Safe rounds sock (some res) (some (parent_suffix (int_of_u32 id))) s)
            λ _ s1 _. e)
        λ _. rw e refl

  -- Under Unikraft a clone is never told that it is one: whatever the hypervisor answers,
  -- `clone_prologue` does not write 1 to `*is_child`, also in the child.
  pub clone_prologue-ToldParent :
      (rounds : ℕ) (mysock : MySocket) (myport : ℕ) (s : State)
      → env.platform ≡ unikraft
      → ToldParent (clone_prologue rounds mysock myport s)
  unfolding clone_prologue
  clone_prologue-ToldParent rounds mysock myport s e =
      let P : Prologue → State → Type 0 = λ (_, is_child, _) _. told_child is_child ≡ false in
      let Q : State → Type 0 = λ _. Unit {0} in
      Ends.bind _ _ P (os_get_self_id s) _ (os_get_self_id-Safe s) λ id s1 _.
        Ends.branch P Q (is_zero (env.answer s1.trace gettimeofday).value) _ _ _
          (λ _. Ends.bind_total _ _ P (os_clone _ _) _ (os_clone-not_child _ _ e) λ rc s2 other.
            Ends.branch P Q (is_neg rc) _ _ s2 (λ _. refl)
              λ _.
                Ends.branch P Q (is_zero (env.answer s2.trace gettimeofday).value) _ _ _
                  (λ _.
                    Ends.branch P Q s2.globals.do_send_time _ _ _
                      (λ _. report_clone-ToldParent rounds _ _ rc mysock myport _ _ other)
                      λ _. other)
                  λ _. refl)
          λ _. refl
