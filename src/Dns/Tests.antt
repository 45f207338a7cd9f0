-- ===== src/Dns/Tests.antt =====
-- A reconcile that adds one backend and removes another.
use sticky_proxy.Prelude.{◌≡◌, refl, String, true, some, List, [], ◌∷◌, map, listed, str_dec}
use sticky_proxy.Maps
use sticky_proxy.Hashing.{listing}
use sticky_proxy.Dns.{add_backend, remove_backend, url_of, reconcile}
use sticky_proxy.Dns.Agreement.{effects, effects-reconcile}

abbrev current : List String
current = "http://10.0.0.1:80" ∷ "http://10.0.0.9:80" ∷ []

abbrev ips : List String
ips = "10.0.0.1" ∷ "fe80::1" ∷ []

asks :
    reconcile true "80" (some ips) (listing current)
    ≡ add_backend "http://[fe80::1]:80" ∷ remove_backend "http://10.0.0.9:80" ∷ []
unfolding reconcile Maps.put Maps.get Maps.has str_dec listed
asks = refl

effects-reconcile_example :
    effects "http://10.0.0.9:80"
      (listed "http://10.0.0.9:80" current)
      (reconcile true "80" (some ips) (listing current))
    ≡ listed "http://10.0.0.9:80" (map (λ ip. url_of ip "80") ips)
effects-reconcile_example = effects-reconcile "80" ips current "http://10.0.0.9:80"
