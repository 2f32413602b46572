-- ===== src/Net/Buffers.antt =====
-- The buffer of a message in common/net.c: what the two receiving functions do to its size.
use cloning_apps.Base.{
  ℕ, ℤ, ◌≤◌, ◌≡◌, ◌≢◌, ◌⊎◌, inl, inr, List, length, length-append, length-take, length-drop,
  length-replicate, drop, arith, ◌==◌, ==→eq, is_neg, is_zero, pos_part, if◌then◌else◌, Bool-cases,
  true, false, refl, ◌++◌, replicate,
}
use cloning_apps.System.{Env, State, Trace, recv, recvfrom, malloc, Reply}
use cloning_apps.System.Ends
use cloning_apps.System.Ends.{Ends, Never}
use cloning_apps.Net.{
  MySocket, NetMsg, fit, overwrite, net_msg_init_buffer, ensure_buffer, tcp_server_recv_msg,
}
use cloning_apps.Net.Datagram.{udp_server_recv_msg}

-- What the manual pages say of two calls: they store and return at most as many bytes as asked for.
pub record ReceivesAtMost (env : Env) : Type 0 where
  pub recv_most : (t : Trace) (d : ℤ) (n : ℕ) → pos_part (env.answer t (recv d n)).value ≤ n
  pub recvfrom_most : (t : Trace) (d : ℤ) (n : ℕ) → pos_part (env.answer t (recvfrom d n)).value ≤ n

-- The message has a buffer of 4096 bytes.
abbrev pub FullBuffer : NetMsg → Type 0
FullBuffer m = (m.netbuf ≢ 0) × (m.netbuf_size ≡ 4096) × (length m.contents ≡ 4096)

-- It has no buffer, or one of 4096 bytes.
abbrev pub Sized : NetMsg → Type 0
Sized m = (m.netbuf ≡ 0) ⊎ FullBuffer m

-- A receiving function leaves a sized message, and what it received is in its buffer.
abbrev pub Received : ℤ × NetMsg → State → Type 0
Received (rc, m) s' =
    if is_neg rc then Sized m else FullBuffer m × (pos_part rc ≤ length m.contents)

length-fit : (n : ℕ) (xs : List ℕ) → length (fit n xs) ≡ n
unfolding fit
length-fit n xs = omega (
  arith,
  length-take n (xs ++ replicate n 0),
  length-append xs (replicate n 0),
  length-replicate {A = ℕ} n 0,
)

length-overwrite :
    (n : ℕ) (xs old : List ℕ) → n ≤ length old → length (overwrite n xs old) ≡ length old
unfolding overwrite
length-overwrite n xs old h =
    omega (arith, length-append (fit n xs) (drop n old), length-fit n xs, length-drop n old)

module _ ⦃env : Env⦄ where
  init_buffer-Sized :
      (m : NetMsg) (s : State)
      → Ends
          (λ (rc, m') s'. if is_zero rc then FullBuffer m' else Sized m' × (is_neg rc ≡ true))
          Never
          (net_msg_init_buffer m s)
  unfolding net_msg_init_buffer
  init_buffer-Sized m s = elim (Bool-cases (reply.ptr == 0)) [
    | inl empty ↦ rw empty (inl (==→eq _ _ empty), refl)
    | inr full ↦ rw full (ground arith, refl, length-fit 4096 reply.bytes)
  ]
    where
      reply : Reply
      reply = env.answer s.trace (malloc 4096)

  ensure_buffer-Sized :
      (m : NetMsg) (s : State)
      → Sized m
      → Ends
          (λ (rc, m') s'. if is_zero rc then FullBuffer m' else Sized m' × (is_neg rc ≡ true))
          Never
          (ensure_buffer m s)
  unfolding ensure_buffer
  ensure_buffer-Sized m s sized = elim (Bool-cases (m.netbuf == 0)) [
    | inl empty ↦ rw empty (init_buffer-Sized m s)
    | inr full ↦ rw full (has_buffer sized full)
  ]
    where
      has_buffer : Sized m → (m.netbuf == 0) ≡ false → FullBuffer m
      has_buffer (inl empty) full = ground arith
      has_buffer (inr buffer) full = buffer

  -- What `recv` or `recvfrom` stores, at most as much as fits.
  stored :
      (m : NetMsg) (value : ℤ) (bytes : List ℕ) (s : State)
      → FullBuffer m
      → pos_part value ≤ m.netbuf_size
      → Received (value, record m { contents = overwrite (pos_part value) bytes m.contents }) s
  stored m value bytes s (there, size, len) most =
      let same = length-overwrite (pos_part value) bytes m.contents (omega arith) in
      elim (Bool-cases (is_neg value)) [
        | inl bad ↦ rw bad (inr (there, size, omega (arith, same)))
        | inr good ↦ rw good ((there, size, omega (arith, same)), omega (arith, same))
      ]

  -- If `recv` and `recvfrom` store at most as many bytes as they are asked for, both receiving
  -- functions, given a message with no buffer or one of 4096 bytes, leave such a message again.
  -- Unless they return a negative number it has a buffer, and what was received is inside it.
  pub recv_msg-Received :
      ReceivesAtMost env
      → (m : NetMsg) (sock : MySocket) (s : State) → Sized m
      → Ends Received Never (tcp_server_recv_msg m s)
        × Ends Received Never (udp_server_recv_msg sock m s)
  unfolding tcp_server_recv_msg udp_server_recv_msg
  recv_msg-Received most m sock s sized = (
    Ends.bind_total _ _ _ (ensure_buffer m s) _ (ensure_buffer-Sized m s sized) λ (rc, m') s1 o.
        elim (Bool-cases (is_zero rc)) [
          | inl good ↦
              rw good (stored m' _ _ s1 (rw good at o) (most.recv_most s1.trace m'.connection _))
          | inr bad ↦ rw bad (let (z, n) = rw bad at o in rw n z)
        ],
    Ends.bind_total _ _ _ (ensure_buffer m s) _ (ensure_buffer-Sized m s sized) λ (rc, m') s1 o.
        elim (Bool-cases (is_zero rc)) [
          | inl good ↦
              rw good (stored m' _ _ s1 (rw good at o) (most.recvfrom_most s1.trace sock.s _))
          | inr bad ↦ rw bad (let (z, n) = rw bad at o in rw n z)
        ],
  )
