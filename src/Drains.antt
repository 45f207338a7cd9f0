-- ===== src/Drains.antt =====
-- The drains that run (internal/proxy/drain.go), the flag of `Trigger` (internal/proxy/rebalancer.go)
-- and the administration endpoints over them (internal/proxy/admin.go). A drain is entered and left
-- under the mutex; what it does in between is in Transition.
pub mod Runs
pub mod Auth
mod Tests
use sticky_proxy.Prelude.{
  ℕ, ◌+◌, String, Bool, true, false, not, ◌||◌, Option, none, some, List, [], ◌∷◌, if◌then◌else◌,
  ◌==◌, is_empty, str_dec, ite, trim_prefix,
}
use sticky_proxy.Maps
use sticky_proxy.Maps.{Map}

-- The value of a key says whether its drain has been cancelled; `started` counts the drains that were
-- started (the metric `drainsTotal`).
pub record Drains : Type 0 where
  pub draining : Map Bool
  pub started : ℕ

unfoldable pub new : Drains
new = record { draining = []; started = 0 }

unfoldable pub is_draining : Drains → String → Bool
is_draining d backend = Maps.has backend d.draining

unfoldable pub draining_backends : Drains → List String
draining_backends d = Maps.keys d.draining

-- `StartDrain`, and whether a drain begins
unfoldable pub start_drain : Drains → String → Drains × Bool
start_drain d backend =
    if Maps.has backend d.draining
    then (d, false)
    else (record { draining = Maps.put backend false d.draining; started = d.started + 1 }, true)

-- `delete(d.draining, backend)` at the end of a drain
unfoldable pub finish_drain : Drains → String → Drains
finish_drain d backend = record d { draining = Maps.del backend d.draining }

unfoldable pub cancel_drain : Drains → String → Drains
cancel_drain d backend =
    if Maps.has backend d.draining
    then record d { draining = Maps.put backend true d.draining }
    else d

-- `Trigger`: the flag after it, and whether a rebalance begins
unfoldable pub trigger : Bool → Bool × Bool
trigger true = (true, false)
trigger false = (true, true)

-- How an administration request ends.
pub data Status : Type 0 where
  passed forbidden unauthorized method_not_allowed bad_request unavailable accepted ok : Status

-- A header without the prefix is left as it is, and refused. `ConstantTimeCompare` answers 1 on equal
-- texts.
unfoldable pub compare_token : String → Option String → Status
compare_token token none = unauthorized
compare_token token (some provided) = ite (str_dec provided token) passed unauthorized

unfoldable pub admin_auth : String → String → Status
unfolding trim_prefix compare_token
admin_auth token auth =
    if is_empty token then forbidden else compare_token token (trim_prefix "Bearer " auth)

-- `AdminDrainHandler` and `AdminCancelDrainHandler`: whether the method is right, the backend, and the
-- manager, if there is one.
unfoldable pub admin_drain : Bool → String → Option Drains → Option Drains × Status
unfolding start_drain
admin_drain false backend d = (d, method_not_allowed)
admin_drain true backend none = (none, if is_empty backend then bad_request else unavailable)
admin_drain true backend (some d) =
    if is_empty backend then (some d, bad_request) else (some (start_drain d backend).0, accepted)

unfoldable pub admin_cancel : Bool → String → Option Drains → Option Drains × Status
unfolding cancel_drain
admin_cancel false backend d = (d, method_not_allowed)
admin_cancel true backend none = (none, if is_empty backend then bad_request else unavailable)
admin_cancel true backend (some d) =
    if is_empty backend then (some d, bad_request) else (some (cancel_drain d backend), ok)

-- `AdminDrainStatusHandler`
unfoldable pub admin_status : Option Drains → List String
unfolding draining_backends
admin_status none = []
admin_status (some d) = draining_backends d

pub data Call : Type 0 where
  starts finishes cancels : String → Call

-- The state after a call, and the number of drains of the backend that it begins.
unfoldable pub step : Drains → String → Call → Drains × ℕ
unfolding start_drain finish_drain cancel_drain
step d b (starts c) = let r = start_drain d c in (r.0, if r.1 then ite (str_dec c b) 1 0 else 0)
step d b (finishes c) = (finish_drain d c, 0)
step d b (cancels c) = (cancel_drain d c, 0)

unfoldable pub run : Drains → String → List Call → Drains × ℕ
unfolding step
run d b [] = (d, 0)
run d b (c ∷ cs) = let here = step d b c in let rest = run here.0 b cs in (rest.0, here.1 + rest.1)
