-- ===== src/Servers/Overflow.antt =====
-- The loop of counter.c keeps to the protocol, up to the one addition that C leaves undefined.
use cloning_apps.Base.{ℤ, ◌≡◌, true, false}
use cloning_apps.System.{Env, State, Trace, Run}
use cloning_apps.System.Ends
use cloning_apps.System.Ends.{EndsOr, Never}
use cloning_apps.Net.{NetMsg, OsServer}
use cloning_apps.Servers.{is_largest}
use cloning_apps.Servers.Contract.{Contract}
use cloning_apps.Servers.Contract.Protocol.{protocol}
use cloning_apps.Servers.Session.{listening, Follows, Allowed}
use cloning_apps.Servers.Session.Messages.{Somewhere, Buffered}

-- counter.c sends counters, and makes no call aside.
abbrev pub counts : Allowed
counts = record { answers = true; aside = λ _. false }

module _ ⦃env : Env⦄ (server : OsServer) (t : Trace) where
  abbrev c : Contract env server
  c = protocol server counts t

  -- The counter in the buffer of the connection that is served is the largest `int`.
  abbrev pub AtLargest : State → Type 0
  AtLargest s' = (m : NetMsg) × Buffered server counts t m s' × (is_largest m ≡ true)

  -- The outcome of the loop.
  abbrev pub Counts : Run ℤ → Type 0
  Counts =
      EndsOr AtLargest (λ _ s'. Follows server.listener_socket.s counts t s'.trace listening)
        (Somewhere server counts t)
