-- ===== src/Health/Tests.antt =====
-- Runs of the health checker, with the thresholds that `NewHealthChecker` sets.
use sticky_proxy.Prelude.{
  ◌≡◌, refl, String, Bool, true, false, List, [], ◌∷◌, arith, listed, str_dec, some,
}
use sticky_proxy.Hashing.{listing}
use sticky_proxy.Maps
use sticky_proxy.Health.{
  HealthChecker, Health, fresh, check_all, record_result, record_all, remove_backend,
}
use sticky_proxy.Health.Streaks.{health_of, health_state, wanted, record_result-health_state}
use sticky_proxy.Health.Recovery.{asks_add, probes, check_all_forgets}

abbrev start : HealthChecker
start = record {
  states = [];
  previous_backends = [];
  unhealthy_threshold = 3;
  healthy_threshold = 1;
  drains = false;
  rebalances = true;
}

falls :
    (record_all start (("b1", false) ∷ ("b1", false) ∷ ("b1", false) ∷ [])).1
    ≡ remove_backend "b1" ∷ []
unfolding record_all Maps.get Maps.put str_dec
falls = refl

record_result-health_state_example :
    (Maps.get "b1" (record_result start "b1" false).0.states ≡ some (health_state 3 1 (false ∷ [])))
    × ((record_result start "b1" false).1
        ≡ wanted false "b1" (health_of 3 1 []) (health_of 3 1 (false ∷ [])))
unfolding Maps.get health_state
record_result-health_state_example = record_result-health_state start "b1" [] false refl

-- b1 was taken out of the active set, and answers its next probe.
abbrev down : Health
down = record { consecutive_fails = 3; consecutive_successes = 0; healthy = false }

abbrev fallen : HealthChecker
fallen = record start { states = ("b1", down) ∷ ("b2", fresh) ∷ [] }

abbrev round : List (String × Bool)
round = ("b2", true) ∷ ("b1", true) ∷ []

check_all_forgets_example :
    (asks_add "b1" (check_all fallen (listing ("b2" ∷ [])) round).1 ≡ false)
    × ((t : Health) × (Maps.get "b1" (check_all fallen (listing ("b2" ∷ [])) round).0.states
          ≡ some t)
        × (t.healthy ≡ true))
unfolding Maps.get str_dec listed probes
check_all_forgets_example =
    check_all_forgets fallen ("b2" ∷ []) "b1" down round (refl, (refl, tt)) refl refl refl
      (omega arith) refl
