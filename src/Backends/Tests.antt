-- ===== src/Backends/Tests.antt =====
-- Runs of the backend circuit breaker, with a threshold of two failures and a cooldown of 30.
use sticky_proxy.Prelude.{◌≡◌, refl, ℕ, List, [], ◌∷◌, true, false, not, arith, str_dec, All}
use sticky_proxy.Maps
use sticky_proxy.Backends.{Call, checked, failed, new, available, run, step, backend_error}
use sticky_proxy.Backends.Circuit.{blocks, observe_all, available-run, send, send-never_opens}

abbrev calls : List (ℕ × Call)
calls = (10, failed "b1") ∷ (11, checked "b2") ∷ (12, failed "b1") ∷ (13, failed "b2") ∷ []

refuses : (available (run (new 2 30) calls) "b1" 42).1 ≡ false
unfolding available run step new Maps.get Maps.put Maps.del str_dec
refuses = refl

recovers : (available (run (new 2 30) calls) "b1" 43).1 ≡ true
unfolding available run step new Maps.get Maps.put Maps.del str_dec
recovers = refl

available-run_example :
    (available (run (new 2 30) calls) "b1" 42).1
    ≡ not (blocks 2 30 (observe_all 2 30 "b1" (record { count = 0; last = 0 }) calls) 42)
available-run_example =
    available-run 2 30 13 42 "b1" calls (omega arith) (omega arith) (omega arith)

send-never_opens_example :
    All (λ o. o ≡ backend_error) (send (new 3 60) "b1" ((1, 2) ∷ (3, 4) ∷ (5, 6) ∷ (7, 8) ∷ []))
send-never_opens_example =
    send-never_opens 3 60 "b1" ((1, 2) ∷ (3, 4) ∷ (5, 6) ∷ (7, 8) ∷ []) (omega arith) (omega arith)
