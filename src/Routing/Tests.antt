-- ===== src/Routing/Tests.antt =====
-- Assignments while Redis fails, and the theorems about them.
use sticky_proxy.Prelude.{
  ℕ, ◌≡◌, refl, String, true, false, not, List, [], ◌∷◌, listed, str_dec, is_empty, arith,
}
use sticky_proxy.Breaker
use sticky_proxy.Breaker.{Call, failed, succeeded}
use sticky_proxy.Breaker.Meaning.{blocks, observe_all}
use sticky_proxy.Hashing.{hash_fallback}
use sticky_proxy.Routing.{Redis, fails, text, backend, assign_backend}
use sticky_proxy.Routing.Fallback.{IsWarm, assign_backend-blocks}

abbrev cached : List String
cached = "http://b1" ∷ "http://b2" ∷ []

abbrev calls : List (ℕ × Call)
calls = (10, succeeded) ∷ (13, failed) ∷ (15, failed) ∷ []

abbrev down : Redis
down = record { breaker = Breaker.run (Breaker.new 2 30) calls; cached_backends = cached }

skips : (assign_backend down 20 21 7 (text "http://b9")).1 ≡ false
unfolding assign_backend Breaker.run Breaker.new Breaker.step is_empty hash_fallback
skips = refl

cached-IsWarm : IsWarm cached
unfolding listed str_dec
cached-IsWarm = record { present = λ e. cc; small = omega arith; named = refl }

assign_backend-blocks_example :
    ((assign_backend down 20 21 7 fails).1
      ≡ not (blocks 2 30 (observe_all (record { count = 0; last = 0 }) calls) 20))
    × (blocks 2 30 (observe_all (record { count = 0; last = 0 }) calls) 20 ≡ true
        → (b : String) × ((assign_backend down 20 21 7 fails).0.1 ≡ backend b)
          × (listed b cached ≡ true))
assign_backend-blocks_example =
    assign_backend-blocks 2 30 15 20 21 7 calls cached fails (omega arith) (omega arith)
      (omega arith) cached-IsWarm
