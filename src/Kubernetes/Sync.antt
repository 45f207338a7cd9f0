-- ===== src/Kubernetes/Sync.antt =====
-- The active set after `applyDesiredState` of internal/proxy/discovery_kubernetes.go.
use sticky_proxy.Prelude.{
  ◌≡◌, ◌≢◌, String, Bool, true, false, Option, none, some, List, [], ◌∷◌, str_dec, ite, All, ◌&&◌,
  ◌||◌, not,
}
use sticky_proxy.Maps
use sticky_proxy.Maps.{Map}
use sticky_proxy.Kubernetes.{
  EpState, unknown, active, terminating, Action, cancel_drain, add_backend, start_drain,
  remove_backend, is_active,
}

-- A backend in the store and in the drain manager: in the active set, and with a drain that runs and is
-- not cancelled.
pub record Place : Type 0 where
  pub in_set : Bool
  pub draining : Bool

-- It is in the active set and no drain is about to take it out.
abbrev pub stays : Place → Bool
stays p = p.in_set && not p.draining

-- What an action does to the backend `k` at once, if the store does not fail. A drain that is started
-- takes its backend out of the active set at its end only; one that is cancelled does not any more.
unfoldable pub effect : String → Place → Action → Place
effect k p (cancel_drain url) = ite (str_dec url k) (record p { draining = false }) p
effect k p (add_backend url) = ite (str_dec url k) (record p { in_set = true }) p
effect k p (start_drain url) = ite (str_dec url k) (record p { draining = true }) p
effect k p (remove_backend url) = ite (str_dec url k) (record p { in_set = false }) p

unfoldable pub effects : String → Place → List Action → Place
effects k p [] = p
effects k p (a ∷ as') = effects k (effect k p a) as'

-- No desired state is unknown.
abbrev pub Known : Map EpState → Type 0
Known = All (λ e. e.1 ≢ unknown)

-- What is known of a backend agrees with its place: one that is not known does not drain, but may be in
-- the active set or not, and without a drain manager nothing drains.
abbrev pub Agrees : Bool → Place → Option EpState → Type 0
Agrees drains now none = now.draining ≡ false
Agrees drains now (some unknown) = now.draining ≡ false
Agrees drains now (some active) = (now.in_set ≡ true) × (now.draining ≡ false)
Agrees drains now (some terminating) = (stays now ≡ false) × ((drains || not now.draining) ≡ true)

-- The state of a backend after the first loop.
abbrev pub wanted : Bool → Option EpState → Bool
wanted now none = now
wanted now (some s) = is_active (some s)

-- The place of a backend after the second loop.
gone : Place → Option EpState → Option EpState → Place
gone now none (some _) = record now { in_set = false }
gone now none none = now
gone now (some _) _ = now

-- Whether it stays.
abbrev pub vanished : Bool → Option EpState → Option EpState → Bool
vanished now none (some _) = false
vanished now none none = now
vanished now (some _) _ = now

abbrev pub after : Bool → Option EpState → Option EpState → Bool
after now desired prev = vanished (wanted now desired) desired prev
