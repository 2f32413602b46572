-- ===== src/Servers/Udp.antt =====
-- Whom server-udp.c announces: the reference, and what one round does.
pub mod Buffers
pub mod Loop
use cloning_apps.Base.{
  ℕ, ℤ, zero, suc, pos, ◌≡◌, ◌≢◌, Bool, true, false, not, ◌&&◌, Option, none, some, List, [], ◌∷◌,
  ◌++◌, ◌==◌, if◌then◌else◌, arith, is_neg, is_zero, Bool-cases, inl, inr, refl, minus_one, ap,
}
use cloning_apps.System.{
  Env, State, Trace, Run, Event, SockAddr, event, Cmd, call, ◌>>◌, ◌>>=◌, malloc, free, close, Call,
  recvfrom, announce, Reply, and_then, pure,
}
use cloning_apps.System.Ends
use cloning_apps.System.Ends.{Ends, Never}
use cloning_apps.Net.{
  MySocket, NetMsg, zero_msg, net_msg_cleanup, ensure_buffer, net_msg_init_buffer,
}
use cloning_apps.Net.Datagram.{udp_server_recv_msg}
use cloning_apps.Servers.{serve_udp, is_new_client}

-- The senders of the datagrams that were received, newest first.
abbrev sender : Call → Reply → List SockAddr → List SockAddr
sender (recvfrom _ _) r rest = if is_neg r.value then rest else r.peer ∷ rest
sender _ r rest = rest

abbrev pub senders : Trace → List SockAddr
senders [] = []
senders (e ∷ t) = sender e.made e.reply (senders t)

-- The clients that were announced, newest first.
abbrev announcement : Call → List SockAddr → List SockAddr
announcement (announce a) rest = a ∷ rest
announcement _ rest = rest

abbrev pub announced : Trace → List SockAddr
announced [] = []
announced (e ∷ t) = announcement e.made (announced t)

abbrev same_client : SockAddr → SockAddr → Bool
same_client a b = (a.addr == b.addr) && (a.port == b.port)

abbrev pub is_change : SockAddr → List SockAddr → Bool
is_change x [] = true
is_change x (y ∷ ys) = not (same_client y x)

-- The reference: of the senders, newest first, those that are not the one before them.
abbrev pub changes : List SockAddr → List SockAddr
changes [] = []
changes (x ∷ xs) = let rest = changes xs in if is_change x xs then x ∷ rest else rest

-- What the two variables for the previous client hold after these senders.
abbrev pub Remembers : SockAddr → ℕ → List SockAddr → Type 0
Remembers a port [] = port ≡ 0
Remembers a port (x ∷ xs) = (a.addr ≡ x.addr) × (a.port ≡ x.port) × (port ≡ x.port)

-- No datagram comes from port 0.
abbrev pub NoPortZero : Env → Type 0
NoPortZero env = (t : Trace) (c : Call) → (env.answer t c).peer.port ≢ 0

-- From the trace `t` on, the clients were announced as the reference says.
abbrev pub Announces : Trace → Trace → Type 0
Announces t u = (v : Trace) × (u ≡ v ++ t) × (announced v ≡ changes (senders v))

pub is_new_client-is_change :
    (a x : SockAddr) (port : ℕ) (xs : List SockAddr)
    → x.port ≢ 0
    → Remembers a port xs
    → is_new_client a port x ≡ is_change x xs
is_new_client-is_change a x port [] nz e = ground arith
is_new_client-is_change a x port (y ∷ ys) nz (e, e', e'') = ground arith

pub Remembers-old :
    (a x : SockAddr) (port : ℕ) (xs : List SockAddr)
    → is_change x xs ≡ false
    → Remembers a port xs
    → Remembers a port (x ∷ xs)
Remembers-old a x port [] h mem = ground arith
Remembers-old a x port (y ∷ ys) h (e, e', e'') = ground arith

module _ ⦃env : Env⦄ where
  -- From the trace `t` on these clients were announced, and these senders heard.
  abbrev pub Heard : Trace → List SockAddr → List SockAddr → State → Type 0
  Heard t as' xs s' = (v : Trace) × (s'.trace ≡ v ++ t) × (announced v ≡ as') × (senders v ≡ xs)

  pub recv-Heard :
      (sock : MySocket) (t : Trace) (as' xs : List SockAddr) (s : State)
      → NoPortZero env
      → Heard t as' xs s
      → Ends
          (λ (rc, m) s'.
            if is_neg rc
            then Heard t as' xs s'
            else Heard t as' (m.client_addr ∷ xs) s' × (m.client_addr.port ≢ 0))
          Never
          (udp_server_recv_msg sock (record zero_msg { connection = minus_one }) s)
  unfolding udp_server_recv_msg ensure_buffer net_msg_init_buffer
  recv-Heard sock t as' xs s nz (v, e, ea, es) = elim (Bool-cases (buf.ptr == 0)) [
    | inl empty ↦
        rw empty (event (malloc 4096) buf ∷ v, ap (λ u. event (malloc 4096) buf ∷ u) e, ea, es)
    | inr full ↦ rw full (elim (Bool-cases (is_neg got.value)) [
      | inl failed ↦ rw failed (
        event c got ∷ event (malloc 4096) buf ∷ v,
        ap (λ u. event c got ∷ event (malloc 4096) buf ∷ u) e,
        ea,
        rw failed es,
      )
      | inr heard ↦ rw heard (
        (
          event c got ∷ event (malloc 4096) buf ∷ v,
          ap (λ u. event c got ∷ event (malloc 4096) buf ∷ u) e,
          ea,
          rw heard (ap (λ u. got.peer ∷ u) es),
        ),
        nz (event (malloc 4096) buf ∷ s.trace) c,
      )
    ])
  ]
    where
      buf : Reply
      buf = env.answer s.trace (malloc 4096)

      c : Call
      c = recvfrom sock.s 4096

      got : Reply
      got = env.answer (event (malloc 4096) buf ∷ s.trace) c

  free-Heard :
      (p : ℕ) (r : Reply) (t : Trace) (as' xs : List SockAddr) (s : State)
      → Heard t as' xs s
      → Heard t as' xs (record s { trace = event (free p) r ∷ s.trace })
  free-Heard p r t as' xs s (v, e, ea, es) =
      (event (free p) r ∷ v, ap (λ u. event (free p) r ∷ u) e, ea, es)

  close-Heard :
      (fd : ℤ) (r : Reply) (t : Trace) (as' xs : List SockAddr) (s : State)
      → Heard t as' xs s
      → Heard t as' xs (record s { trace = event (close fd) r ∷ s.trace })
  close-Heard fd r t as' xs s (v, e, ea, es) =
      (event (close fd) r ∷ v, ap (λ u. event (close fd) r ∷ u) e, ea, es)

  pub announce-Heard :
      (a : SockAddr) (r : Reply) (t : Trace) (as' xs : List SockAddr) (s : State)
      → Heard t as' xs s
      → Heard t (a ∷ as') xs (record s { trace = event (announce a) r ∷ s.trace })
  announce-Heard a r t as' xs s (v, e, ea, es) =
      (event (announce a) r ∷ v, ap (λ u. event (announce a) r ∷ u) e, ap (λ u. a ∷ u) ea, es)

  pub net_msg_cleanup-Heard :
      (m : NetMsg) (t : Trace) (as' xs : List SockAddr) (s : State)
      → Heard t as' xs s
      → Ends (λ _ s'. Heard t as' xs s') Never (net_msg_cleanup m s)
  unfolding net_msg_cleanup
  net_msg_cleanup-Heard m t as' xs s h =
      let freed = record s {
        trace = event (free m.netbuf) (env.answer s.trace (free m.netbuf)) ∷ s.trace;
      } in
      elim (Bool-cases (m.netbuf == 0)) [
        | inl empty ↦ elim (Bool-cases (is_neg m.connection)) [
          | inl none' ↦ rw (empty, none') h
          | inr some' ↦ rw (empty, some') (close-Heard m.connection _ t as' xs s h)
        ]
        | inr full ↦ elim (Bool-cases (is_neg m.connection)) [
          | inl none' ↦ rw (full, none') (free-Heard m.netbuf _ t as' xs s h)
          | inr some' ↦
              rw (full, some')
                (close-Heard m.connection _ t as' xs freed (free-Heard m.netbuf _ t as' xs s h))
        ]
      ]
