-- ===== src/Rebalancer/Tests.antt =====
-- Runs of the two strategies, and the theorems about them at concrete assignments.
use sticky_proxy.Prelude.{
  str_dec, is_empty, listed, ℕ, ◌+◌, ◌≤◌, ◌≡◌, refl, String, List, [], ◌∷◌, some, All,
}
use sticky_proxy.Prelude.Int.{pos}
use sticky_proxy.Maps
use sticky_proxy.Maps.{Map}
use sticky_proxy.Assignment.{Assignment, effective_weight}
use sticky_proxy.Hashing.{assign_via_hash, listing}
use sticky_proxy.Rebalancer.{least_loaded, consistent_hash, ideal_weight, weights_of}
use sticky_proxy.Rebalancer.Soundness.{IsSound, least_loaded-IsSound}
use sticky_proxy.Rebalancer.Load.{load_of, weight_to, weight_from, larger, least_loaded-load_of}
use sticky_proxy.Rebalancer.Rehash.{destination, consistent_hash-assign_via_hash}

abbrev on : String → ℕ → Assignment
on backend weight = record {
  backend = backend;
  assigned_at = 0;
  source = "table";
  weight = pos weight;
}

-- "b1" is overloaded and "b3" is not active.
abbrev assigned : Map Assignment
assigned =
    ("alice", on "b1" 1) ∷ ("bob", on "b1" 0) ∷ ("carol", on "b1" 3) ∷ ("dave", on "b3" 1) ∷ []

abbrev active : List String
active = "b1" ∷ "b2" ∷ []

moves_two :
    least_loaded assigned active
    ≡ record { routing_key = "alice"; from_backend = "b1"; to_backend = "b2" }
      ∷ record { routing_key = "dave"; from_backend = "b3"; to_backend = "b2" }
      ∷ []
unfolding least_loaded Maps.get Maps.put str_dec is_empty listed effective_weight
moves_two = refl

least_loaded-IsSound_example : All (IsSound assigned active) (least_loaded assigned active)
unfolding Maps.get str_dec
least_loaded-IsSound_example =
    least_loaded-IsSound assigned active (refl, (refl, (refl, (refl, tt))))

least_loaded-load_of_example :
    load_of "b2" assigned + weight_to assigned "b2" (least_loaded assigned active)
    ≤ larger (load_of "b2" assigned) (ideal_weight (weights_of assigned active) active + 1)
      + weight_from assigned "b2" (least_loaded assigned active)
least_loaded-load_of_example = least_loaded-load_of assigned active "b2"

consistent_hash-assign_via_hash_example :
    some (destination "alice" "b1" (consistent_hash assigned active))
    ≡ assign_via_hash (listing active) "alice"
unfolding Maps.get str_dec
consistent_hash-assign_via_hash_example =
    consistent_hash-assign_via_hash assigned active "alice" (on "b1" 1)
      (refl, (refl, (refl, (refl, tt)))) refl (λ e. cc)
