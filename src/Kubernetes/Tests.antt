-- ===== src/Kubernetes/Tests.antt =====
-- Runs of the Kubernetes discovery.
use sticky_proxy.Prelude.{◌≡◌, ◌≢◌, refl, true, false, none, some, List, [], ◌∷◌, All, str_dec}
use sticky_proxy.Maps
use sticky_proxy.Maps.{Map}
use sticky_proxy.Kubernetes.{
  EpState, active, terminating, Discovery, EndpointSlice, build_desired_state, apply_desired_state,
  add_backend, start_drain, remove_backend,
}
use sticky_proxy.Kubernetes.Sync.{Place}
use sticky_proxy.Kubernetes.Repeats.{url_of_action, reconciles, reconciles_quiet}

abbrev slice : EndpointSlice
slice = record {
  ports = record { name = some "http"; port = some 8080 } ∷ [];
  endpoints =
      record { addresses = "10.0.0.1" ∷ []; ready = some true; serving = none; terminates = none }
      ∷ record {
        addresses = "fe80::1" ∷ [];
        ready = none;
        serving = some true;
        terminates = some true;
      }
      ∷ [];
}

abbrev desired : Map EpState
desired = ("http://10.0.0.1:8080", active) ∷ ("http://[fe80::1]:8080", terminating) ∷ []

builds : build_desired_state "http" (slice ∷ []) ≡ desired
unfolding build_desired_state Maps.put str_dec
builds = refl

abbrev before : Discovery
before = record {
  known = ("http://[fe80::1]:8080", active) ∷ ("http://10.0.0.9:8080", active) ∷ [];
  drains = true;
}

acts :
    (apply_desired_state before desired).1
    ≡ add_backend "http://10.0.0.1:8080"
      ∷ start_drain "http://[fe80::1]:8080"
      ∷ remove_backend "http://10.0.0.9:8080"
      ∷ []
unfolding apply_desired_state Maps.get Maps.has str_dec
acts = refl

-- A backend that takes requests.
abbrev settled : Place
settled = record { in_set = true; draining = false }

-- Later states of the cluster.
abbrev changes : List (Map EpState)
changes =
    (("http://10.0.0.1:8080", active) ∷ [])
    ∷ (("http://10.0.0.7:8080", active) ∷ ("http://10.0.0.1:8080", active) ∷ [])
    ∷ []

reconciles_quiet_example :
    All
      (λ a. url_of_action a ≢ "http://10.0.0.1:8080")
      (reconciles (apply_desired_state before desired).0 changes)
unfolding Maps.get str_dec
reconciles_quiet_example =
    reconciles_quiet before desired "http://10.0.0.1:8080" changes
      (((refl, tt), refl), (((refl, (refl, tt)), refl), tt))
