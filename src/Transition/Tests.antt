-- ===== src/Transition/Tests.antt =====
-- A drain and a rebalance, and the theorems about them.
use sticky_proxy.Prelude.{
  ◌≡◌, refl, String, true, false, some, List, [], ◌∷◌, map, str_dec, is_empty,
}
use sticky_proxy.Prelude.Int.{pos}
use sticky_proxy.Maps
use sticky_proxy.Maps.{Map}
use sticky_proxy.Assignment.{Assignment, BulkAssignEntry}
use sticky_proxy.Rebalancer.{Move}
use sticky_proxy.Transition.{
  mark_transition, clear_transition, bulk_delete, send_unassign, invalidate, close_conns, publish,
  remove_backend, unlock, Setup, drain, rebalance, new_entries,
}
use sticky_proxy.Transition.Guard.{is_guarded, drain-is_guarded, rebalance-is_guarded}

abbrev setup : Setup
setup = record {
  by_table = true;
  has_redis = false;
  has_hooks = true;
  has_hold = true;
  has_notifier = true;
  has_tracker = true;
  swaps = true;
}

drains :
    drain setup "b1" true (some ("alice" ∷ []))
    ≡ mark_transition ("alice" ∷ [])
      ∷ send_unassign "b1" ("alice" ∷ [])
      ∷ bulk_delete ("alice" ∷ [])
      ∷ invalidate "alice"
      ∷ close_conns "alice"
      ∷ publish "b1"
      ∷ remove_backend "b1"
      ∷ clear_transition ("alice" ∷ [])
      ∷ unlock
      ∷ []
unfolding drain
drains = refl

drain-is_guarded_example :
    is_guarded "alice" false (drain setup "b1" true (some ("alice" ∷ "bob" ∷ []))) ≡ true
drain-is_guarded_example =
    drain-is_guarded setup "b1" "alice" true (some ("alice" ∷ "bob" ∷ [])) refl

-- A strategy that moves each user of "b1", without a target.
abbrev leave : Map Assignment → List String → List Move
leave assignments active =
    map (λ e. record { routing_key = e.0; from_backend = e.1.backend; to_backend = "" }) assignments

abbrev answer : Map BulkAssignEntry → Map String
answer = map (λ e. (e.0, e.1.backend))

abbrev assigned : Map Assignment
assigned =
    ("alice", record { backend = "b1"; assigned_at = 0; source = "table"; weight = pos 4 })
    ∷ ("bob", record { backend = "b1"; assigned_at = 0; source = "table"; weight = pos 2 })
    ∷ []

abbrev active : List String
active = "b2" ∷ "b3" ∷ []

rebalance-is_guarded_example :
    is_guarded "alice" false (rebalance setup leave answer true (some assigned) active) ≡ true
rebalance-is_guarded_example =
    rebalance-is_guarded setup leave answer true (some assigned) active "alice" refl

spreads :
    new_entries assigned active (leave assigned active)
    ≡ ("alice", record { backend = "b2"; weight = pos 4 })
      ∷ ("bob", record { backend = "b3"; weight = pos 2 })
      ∷ []
unfolding new_entries Maps.put Maps.get str_dec is_empty
spreads = refl
