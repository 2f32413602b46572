-- ===== src/Servers/Refines.antt =====
-- server-tcp.c keeps to the protocol: from one `accept` to the next, and wherever it is stopped.
use cloning_apps.Base.{ℕ, ℤ, false}
use cloning_apps.System.{Env, State, Trace, Run}
use cloning_apps.System.Ends.{Ends}
use cloning_apps.Net.{OsServer}
use cloning_apps.Servers.{serve_tcp}
use cloning_apps.Servers.Contract.{serve_tcp-Serves}
use cloning_apps.Servers.Contract.Protocol.{protocol}
use cloning_apps.Servers.Session.{listening, Follows, here, Allowed}
use cloning_apps.Servers.Session.Messages.{Somewhere}

-- server-tcp.c sends nothing and makes no call aside.
abbrev pub only_receives : Allowed
only_receives = record { answers = false; aside = λ _. false }

module _ ⦃env : Env⦄ (server : OsServer) where
  -- The outcome of a loop.
  abbrev pub Serves : Allowed → Trace → Run ℤ → Type 0
  Serves may t =
      Ends (λ _ s'. Follows server.listener_socket.s may t s'.trace listening)
        (Somewhere server may t)

  -- Whatever the clients and the system answer, the calls of server-tcp.c's loop keep to the
  -- protocol, without sending: they end in the phase between two clients if the loop returns, and in some phase if
  -- it is stopped after any number of rounds. It makes no fault.
  pub serve_tcp-Follows :
      (fuel : ℕ) (s : State) → Serves only_receives s.trace (serve_tcp fuel server s)
  serve_tcp-Follows fuel s =
      serve_tcp-Serves server (protocol server only_receives s.trace) fuel s here
