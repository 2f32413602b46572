-- ===== src/Tests/Servers.antt =====
-- The theorems on the servers, applied to machines.
use cloning_apps.Base.{◌≡◌, refl, [], ◌∷◌, arith, pos, le_bytes}
use cloning_apps.System.{recv, send, malloc, event}
use cloning_apps.System.Ends.{Ends, Never}
use cloning_apps.Servers.{handle_counter}
use cloning_apps.Servers.Counter.{handle_counter-reply}
use cloning_apps.Tests.{nothing, calm, start, message}

handle_counter-reply_example :
    Ends
      (λ (rc, _) s'.
        (s'.trace
          ≡ event (send (pos 4) (8 ∷ 0 ∷ 0 ∷ 0 ∷ [])) (record nothing { value = pos 4 })
            ∷ event
                (recv (pos 4) 4096)
                (record nothing { value = pos 4; bytes = 7 ∷ 0 ∷ 0 ∷ 0 ∷ [] })
            ∷ event (malloc 4096) (record nothing { ptr = 4096 })
            ∷ [])
        × (rc ≡ pos 4))
      Never
      (handle_counter ⦃env = calm⦄ message start)
unfolding le_bytes
handle_counter-reply_example =
    handle_counter-reply ⦃env = calm⦄ message start 4 7 [] (omega arith) (ground arith)
      (omega arith) refl (ground arith) refl refl
