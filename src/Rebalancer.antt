-- ===== src/Rebalancer.antt =====
-- internal/proxy/rebalancer.go: moves, the least-loaded strategy and the consistent-hash strategy. The
-- loops range over Go maps in the order of the association lists. Weights are natural
-- numbers without a bound, and so is `planned`, where a subtraction would stop at 0.
pub mod Plan
pub mod Soundness
pub mod Load
pub mod Rehash
mod Tests
use sticky_proxy.Prelude.{
  ℕ, ◌+◌, ◌-◌, ◌/◌, String, Bool, true, false, ◌&&◌, Option, none, some, List, [], ◌∷◌, ◌++◌,
  length, ltb, leb, ◌==◌, if◌then◌else◌, str_dec, ite, is_empty, listed, get_or,
}
use sticky_proxy.Prelude.Sort.{sort}
use sticky_proxy.Maps
use sticky_proxy.Maps.{Map}
use sticky_proxy.Assignment.{Assignment, effective_weight}
use sticky_proxy.Hashing.{hash_user, pick}

pub record Move : Type 0 where
  pub routing_key : String
  pub from_backend : String
  pub to_backend : String

-- `weights[b] = 0` for the active backends
unfoldable pub zero_weights : List String → Map ℕ → Map ℕ
zero_weights [] weights = weights
zero_weights (b ∷ bs) weights = zero_weights bs (Maps.put b 0 weights)

-- `weights[a.Backend] += a.EffectiveWeight()`
unfoldable pub add_weights : Map Assignment → Map ℕ → Map ℕ
add_weights [] weights = weights
add_weights ((user, a) ∷ assignments) weights =
    add_weights assignments
      (Maps.put a.backend (get_or 0 (Maps.get a.backend weights) + effective_weight a) weights)

-- `backendUsers[a.Backend] = append(backendUsers[a.Backend], user)`
unfoldable pub group_users : Map Assignment → Map (List String) → Map (List String)
group_users [] groups = groups
group_users ((user, a) ∷ assignments) groups =
    group_users assignments
      (Maps.put a.backend (get_or [] (Maps.get a.backend groups) ++ user ∷ []) groups)

unfoldable pub total_weight : Map ℕ → ℕ
total_weight [] = 0
total_weight ((b, w) ∷ weights) = w + total_weight weights

-- `totalWeight / len(activeBackends)`, or 1 if that is 0
unfoldable pub ideal_weight : Map ℕ → List String → ℕ
unfolding total_weight
ideal_weight weights active =
    let ideal = total_weight weights / length active in if ideal == 0 then 1 else ideal

-- `assignments[user].EffectiveWeight()`; every user of a group has an assignment
unfoldable pub weight_of : Map Assignment → String → ℕ
weight_of assignments user = elim (Maps.get user assignments) [
  | none ↦ 0
  | some a ↦ effective_weight a
]

-- What a backend has to shed: 0 where the loop continues with the next one.
unfoldable pub excess_of : List String → Map ℕ → ℕ → String → ℕ
excess_of active weights ideal backend =
    let w = get_or 0 (Maps.get backend weights) in
    if listed backend active then (if ltb (ideal + 1) w then w - ideal - 1 else 0) else w

-- The loop that looks for the target; "" is none.
unfoldable pub pick_target : ℕ → ℕ → Map ℕ → List String → ℕ → String → String
pick_target ideal w planned [] min_weight target = target
pick_target ideal w planned (b ∷ bs) min_weight target =
    let p = get_or 0 (Maps.get b planned) in
    let better = ltb p min_weight && leb (p + w) (ideal + 1) in
    pick_target ideal w planned bs (if better then p else min_weight) (if better then b else target)

-- `planned[target] += w; planned[backend] -= w`
unfoldable pub shift : Map ℕ → String → String → ℕ → Map ℕ
shift planned target backend w =
    let added = Maps.put target (get_or 0 (Maps.get target planned) + w) planned in
    Maps.put backend (get_or 0 (Maps.get backend added) - w) added

module _ (active : List String) (assignments : Map Assignment) (weights : Map ℕ) (ideal : ℕ) where
  -- the loop over the users of a backend
  unfoldable pub plan_users : ℕ → String → ℕ → Map ℕ → List String → List Move × Map ℕ
  unfolding pick_target shift weight_of is_empty
  plan_users excess backend moved planned [] = ([], planned)
  plan_users excess backend moved planned (user ∷ users) =
      let w = weight_of assignments user in
      let target = pick_target ideal w planned active ideal "" in
      let rest =
        plan_users excess backend (if is_empty target then moved else moved + w)
          (if is_empty target then planned else shift planned target backend w) users in
      if leb excess moved then ([], planned) else if is_empty target then rest else (
        record { routing_key = user; from_backend = backend; to_backend = target } ∷ rest.0,
        rest.1,
      )

  -- the loop over the backends
  unfoldable pub plan_groups : Map ℕ → Map (List String) → List Move × Map ℕ
  unfolding plan_users excess_of
  plan_groups planned [] = ([], planned)
  plan_groups planned ((backend, users) ∷ groups) =
      let here = plan_users (excess_of active weights ideal backend) backend 0 planned users in
      let rest = plan_groups here.1 groups in (here.0 ++ rest.0, rest.1)

unfoldable pub weights_of : Map Assignment → List String → Map ℕ
unfolding zero_weights add_weights
weights_of assignments active = add_weights assignments (zero_weights active [])

-- `ComputeMoves` of `LeastLoadedStrategy`
unfoldable pub least_loaded : Map Assignment → List String → List Move
unfolding weights_of group_users ideal_weight plan_groups
least_loaded assignments [] = []
least_loaded assignments (b ∷ bs) =
    let weights = weights_of assignments (b ∷ bs) in
    (plan_groups (b ∷ bs) assignments weights (ideal_weight weights (b ∷ bs)) weights
      (group_users assignments [])).0

-- the loop of `ConsistentHashStrategy`
unfoldable pub rehash : List String → Map Assignment → List Move
unfolding hash_user pick
rehash sorted [] = []
rehash sorted ((user, a) ∷ assignments) =
    let target = pick (hash_user user) sorted in
    let rest = rehash sorted assignments in
    ite (str_dec target a.backend) rest
      (record { routing_key = user; from_backend = a.backend; to_backend = target } ∷ rest)

-- `ComputeMoves` of `ConsistentHashStrategy`
unfoldable pub consistent_hash : Map Assignment → List String → List Move
unfolding rehash
consistent_hash assignments [] = []
consistent_hash assignments (b ∷ bs) = rehash (sort (b ∷ bs)) assignments
