-- ===== src/Servers/Books.antt =====
-- The connections and buffers of the loop in server-tcp.c.
use cloning_apps.Base.{ℕ, ℤ, arith}
use cloning_apps.System.{Env, State, Trace, Run}
use cloning_apps.System.Ends.{Ends}
use cloning_apps.System.Ledger.{Balanced, AtMostOne}
use cloning_apps.Net.{OsServer}
use cloning_apps.Servers.{serve_tcp}
use cloning_apps.Servers.Contract.{serve_tcp-Serves}
use cloning_apps.Servers.Contract.Ledger.{books}

module _ ⦃env : Env⦄ (fd : ℤ) (p : ℕ) where
  -- The outcome of a server's loop: all is given back when it returns, and at most one connection
  -- and one buffer are in use when it is stopped.
  abbrev pub GivesBack : Trace → Run ℤ → Type 0
  GivesBack t = Ends (λ _ s'. Balanced fd p t s'.trace) (λ s'. AtMostOne fd p t s'.trace)

  -- Whatever the clients and the system do, the loop of server-tcp.c makes no fault, has closed
  -- each connection and freed each buffer exactly once when it returns, and holds at most one of
  -- each when it is stopped after any number of rounds.
  pub serve_tcp-GivesBack :
      (fuel : ℕ) (server : OsServer) (s : State) → GivesBack s.trace (serve_tcp fuel server s)
  serve_tcp-GivesBack fuel server s =
      serve_tcp-Serves server (books fd p server s.trace) fuel s (omega arith)
