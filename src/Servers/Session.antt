-- ===== src/Servers/Session.antt =====
-- The protocol of a TCP server with its clients, apart from any one server: in which order it may
-- make its calls, from one `accept` to the next. server-tcp.c, counter.c and the two benchmarks are
-- written to it.
pub mod Messages
use cloning_apps.Base.{
  ℕ, ℤ, Bool, pos, ◌+◌, ◌%◌, ◌^◌, ◌≡◌, ◌≢◌, true, false, List, ◌∷◌, ◌++◌, take, drop, arith, is_neg,
  is_zero, pos_part, minus_one, le_bytes, from_le_bytes,
}
use cloning_apps.System.{
  Call, accept, getpeername, malloc, recv, send, free, close, Reply, Trace, event,
}
use cloning_apps.System.Ledger
use cloning_apps.System.Ledger.{Holds, Balanced, opening, allocating, freeing}
use cloning_apps.Net.{fit, overwrite}

-- Between two clients; with a connection; with one whose peer is known; with a buffer at an address
-- with its contents; and with a connection that is to be closed.
pub data Phase : Type 0 where
  listening : Phase
  accepted named closing : ℤ → Phase
  buffered : ℤ → ℕ → List ℕ → Phase

-- What a server may do besides while it has a buffer: send the next counter, and make calls that
-- concern no connection and no buffer.
pub record Allowed : Type 0 where
  pub answers : Bool
  pub aside : Call → Bool

-- The four bytes of a counter, and those of the next one.
abbrev pub incremented : List ℕ → List ℕ
incremented c = le_bytes 4 ((from_le_bytes (take 4 c) + 1) % 2 ^ 32)

-- A call with its reply leads from one phase to another, for a server that listens at `l` and
-- may do `may`.
pub data Step (l : ℤ) (may : Allowed) : Phase → Call → Reply → Phase → Type 0 where
  refuse : (r : Reply) → is_neg r.value ≡ true → Step l may listening (accept l) r listening
  connect :
      (r : Reply) → is_neg r.value ≡ false → Step l may listening (accept l) r (accepted r.value)
  name :
      (d : ℤ) (r : Reply)
      → is_zero r.value ≡ true
      → Step l may (accepted d) (getpeername d) r (named d)
  unnamed :
      (d : ℤ) (r : Reply)
      → is_zero r.value ≡ false
      → Step l may (accepted d) (getpeername d) r (closing d)
  buffer :
      (d : ℤ) (r : Reply)
      → r.ptr ≢ 0
      → Step l may (named d) (malloc 4096) r (buffered d r.ptr (fit 4096 r.bytes))
  no_buffer : (d : ℤ) (r : Reply) → r.ptr ≡ 0 → Step l may (named d) (malloc 4096) r (closing d)
  receive :
      (d : ℤ) (p : ℕ) (c : List ℕ) (n : ℕ) (r : Reply)
      → n ≡ 4096
      → Step l may
          (buffered d p c)
          (recv d n)
          r
          (buffered d p (overwrite (pos_part r.value) r.bytes c))
  count :
      (d : ℤ) (p : ℕ) (c : List ℕ) (r : Reply)
      → may.answers ≡ true
      → Step l may
          (buffered d p c)
          (send d (incremented c))
          r
          (buffered d p (incremented c ++ drop 4 c))
  side_call :
      (d : ℤ) (p : ℕ) (c : List ℕ) (made : Call) (r : Reply)
      → may.aside made ≡ true
      → Step l may (buffered d p c) made r (buffered d p c)
  release :
      (d : ℤ) (p : ℕ) (c : List ℕ) (r : Reply) → Step l may (buffered d p c) (free p) r (closing d)
  hang_up : (d : ℤ) (r : Reply) → Step l may (closing d) (close d) r listening

-- The calls from the trace `t` on, up to the second trace, lead from `listening` to the phase.
pub data Follows (l : ℤ) (may : Allowed) (t : Trace) : Trace → Phase → Type 0 where
  here : Follows l may t t listening
  next :
      {u : Trace} {a b : Phase} {c : Call} {r : Reply}
      → Follows l may t u a
      → Step l may a c r b
      → Follows l may t (event c r ∷ u) b

-- What the server owns in a phase.
abbrev pub connection_of : Phase → ℤ
connection_of listening = minus_one
connection_of (accepted d) = d
connection_of (named d) = d
connection_of (closing d) = d
connection_of (buffered d p c) = d

abbrev pub buffer_of : Phase → ℕ
buffer_of (buffered d p c) = p
buffer_of _ = 0

-- A call that acquires and gives back nothing.
abbrev pub Harmless : ℤ → ℕ → Call → Reply → Type 0
Harmless fd p c r =
    (opening fd c r ≡ 0) × (Ledger.closing fd c ≡ 0) × (allocating p c r ≡ 0) × (freeing p c ≡ 0)

module _ (fd : ℤ) (p : ℕ) (l : ℤ) (may : Allowed)
    (harmless : (c : Call) (r : Reply) → may.aside c ≡ true → Harmless fd p c r) where
  Step-Holds :
      {a : Phase} {c : Call} {r : Reply} {b : Phase} (t u : Trace)
      → Step l may a c r b
      → Holds fd p (connection_of a) (buffer_of a) t u
      → Holds fd p (connection_of b) (buffer_of b) t (event c r ∷ u)
  Step-Holds t u (refuse r h) held = ground arith
  Step-Holds t u (connect r h) held = ground arith
  Step-Holds t u (name d r h) held = ground arith
  Step-Holds t u (unnamed d r h) held = ground arith
  Step-Holds t u (buffer d r h) held = ground arith
  Step-Holds t u (no_buffer d r h) held = ground arith
  Step-Holds t u (receive d q c n r e) held = ground arith
  Step-Holds t u (count d q c r h) held = ground arith
  Step-Holds t u (side_call d q c made r h) held = omega (arith, harmless made r h)
  Step-Holds t u (release d q c r) held = ground arith
  Step-Holds t u (hang_up d r) held = ground arith

  -- If the calls aside acquire and give back nothing, whoever follows the protocol owns in each phase just the connection and the buffer of that
  -- phase: every other descriptor was closed as often as it was opened, and every other address
  -- freed as often as it was allocated.
  pub Follows-Holds :
      (t : Trace) {u : Trace} {a : Phase}
      → Follows l may t u a
      → Holds fd p (connection_of a) (buffer_of a) t u
  Follows-Holds t here = omega arith
  Follows-Holds t (next {u} f st) = Step-Holds t u st (Follows-Holds t f)
