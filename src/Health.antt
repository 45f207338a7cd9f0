-- ===== src/Health.antt =====
-- internal/proxy/health_checker.go: the active health checks. What the checker asks of the store and
-- of the drain manager is returned as actions, in order; the probes are arguments: a round gets the
-- results of its probes in the order in which they are recorded.
pub mod Streaks
pub mod Recovery
mod Tests
use sticky_proxy.Prelude.{
  ℕ, ◌+◌, String, Bool, true, false, not, ◌&&◌, ◌||◌, Option, none, some, List, [], ◌∷◌, ◌++◌, leb,
  if◌then◌else◌, str_dec, ite, listed, get_or, length, ltb,
}
use sticky_proxy.Prelude.Sort.{sort}
use sticky_proxy.Maps
use sticky_proxy.Maps.{Map}
use sticky_proxy.Hashing.{Listing, failed, listing}

-- `backendHealth`
pub record Health : Type 0 where
  pub consecutive_fails : ℕ
  pub consecutive_successes : ℕ
  pub healthy : Bool

-- `drains` is `drainOnUnhealthy && drain != nil`, and `rebalances` is `rebalanceOnScale` with a
-- rebalancer.
pub record HealthChecker : Type 0 where
  pub states : Map Health
  pub previous_backends : List String
  pub unhealthy_threshold : ℕ
  pub healthy_threshold : ℕ
  pub drains : Bool
  pub rebalances : Bool

pub data Action : Type 0 where
  add_backend remove_backend start_drain : String → Action
  trigger : List String → Action

abbrev pub fresh : Health
fresh = record { consecutive_fails = 0; consecutive_successes = 0; healthy = true }

-- One result on the state of its backend, and whether the health flips.
unfoldable pub succeed : ℕ → Health → Health × Bool
succeed threshold s =
    let n = s.consecutive_successes + 1 in
    let up = not s.healthy && leb threshold n in
    (record { consecutive_fails = 0; consecutive_successes = n; healthy = s.healthy || up }, up)

unfoldable pub fail : ℕ → Health → Health × Bool
fail threshold s =
    let n = s.consecutive_fails + 1 in
    let down = s.healthy && leb threshold n in
    (
      record { consecutive_fails = n; consecutive_successes = 0; healthy = s.healthy && not down },
      down,
    )

unfoldable pub record_result : HealthChecker → String → Bool → HealthChecker × List Action
unfolding succeed fail
record_result hc backend success =
    let s = get_or fresh (Maps.get backend hc.states) in
    if success
    then (let (s', up) = succeed hc.healthy_threshold s in
        (
          record hc { states = Maps.put backend s' hc.states },
          if up then add_backend backend ∷ [] else [],
        ))
    else (let (s', down) = fail hc.unhealthy_threshold s in
        (
          record hc { states = Maps.put backend s' hc.states },
          if down
              then (if hc.drains then start_drain backend else remove_backend backend) ∷ []
              else [],
        ))

-- the loop that enters newly discovered backends
unfoldable pub merge : List String → Map Health → Map Health
merge [] states = states
merge (b ∷ bs) states = merge bs (if Maps.has b states then states else Maps.put b fresh states)

-- the loop that prunes the states of unhealthy backends outside the active set
unfoldable pub prune : List String → Map Health → Map Health
prune active [] = []
prune active ((b, s) ∷ states) =
    let rest = prune active states in
    if not (listed b active) && not s.healthy then rest else (b, s) ∷ rest

unfoldable pub record_all : HealthChecker → List (String × Bool) → HealthChecker × List Action
unfolding record_result
record_all hc [] = (hc, [])
record_all hc ((b, ok) ∷ results) =
    let (hc', actions) = record_result hc b ok in
    let (hc'', more) = record_all hc' results in (hc'', actions ++ more)

healthy_keys : Map Health → List String
healthy_keys [] = []
healthy_keys ((b, s) ∷ states) =
    let rest = healthy_keys states in if s.healthy then b ∷ rest else rest

-- `getHealthyBackends`
unfoldable pub get_healthy_backends : HealthChecker → List String
unfolding healthy_keys
get_healthy_backends hc = sort (healthy_keys hc.states)

-- `HealthyCount`
unfoldable pub healthy_count : HealthChecker → ℕ
unfolding healthy_keys
healthy_count hc = length (healthy_keys hc.states)

-- `stringSliceEqual`
unfoldable pub string_slice_equal : List String → List String → Bool
string_slice_equal [] [] = true
string_slice_equal (a ∷ as') (b ∷ bs) = ite (str_dec a b) (string_slice_equal as' bs) false
string_slice_equal _ _ = false

-- The end of `checkAll`: a change of the healthy set triggers a rebalance.
unfoldable pub detect_change : HealthChecker → HealthChecker × List Action
unfolding get_healthy_backends string_slice_equal
detect_change hc =
    if hc.rebalances
    then (let current = get_healthy_backends hc in
        (
          record hc { previous_backends = current },
          if not (string_slice_equal hc.previous_backends current) && ltb 0 (length current)
              then trigger current ∷ []
              else [],
        ))
    else (hc, [])

-- The states after the merge; their keys are the backends that the round probes.
unfoldable pub merged : HealthChecker → List String → Map Health
unfolding merge
merged hc active = merge active hc.states

unfoldable pub check_all :
    HealthChecker → Listing → List (String × Bool) → HealthChecker × List Action
unfolding merged prune record_all detect_change
check_all hc failed results = (hc, [])
check_all hc (listing active) results =
    let (hc', actions) =
      record_all (record hc { states = prune active (merged hc active) }) results in
    let (hc'', more) = detect_change hc' in (hc'', actions ++ more)
