-- ===== src/Dns.antt =====
-- internal/proxy/discovery_backends.go: the discovery of backends by DNS. A reconcile gets the answer
-- of the resolver (`none` is an error) and of the store, and returns what it asks of the store, in
-- order. The loop that repeats it is a timer, and a missing store (nil) is a test of the call.
pub mod Agreement
mod Tests
use Prim.Native.String.{◌++◌ as concat}
use sticky_proxy.Prelude.{
  String, Bool, true, false, Option, none, some, List, [], ◌∷◌, ◌++◌, if◌then◌else◌, listed,
}
use sticky_proxy.Maps
use sticky_proxy.Maps.{Map}
use sticky_proxy.Hashing.{Listing, failed, listing}
use sticky_proxy.Kubernetes.{has_colon}

pub data Action : Type 0 where
  add_backend remove_backend : String → Action

-- `fmt.Sprintf("http://%s", net.JoinHostPort(ip, d.port))`
unfoldable pub url_of : String → String → String
unfolding has_colon
url_of ip port =
    concat "http://"
      (concat (if has_colon ip then concat "[" (concat ip "]") else ip) (concat ":" port))

unfoldable pub discovered_from : String → List String → Map (Unit {0}) → Map (Unit {0})
unfolding url_of
discovered_from port [] found = found
discovered_from port (ip ∷ ips) found =
    discovered_from port ips (Maps.put (url_of ip port) tt found)

-- Add newly discovered backends.
unfoldable pub additions : List String → Map (Unit {0}) → List Action
additions current [] = []
additions current ((url, u) ∷ found) =
    let rest = additions current found in
    if listed url current then rest else add_backend url ∷ rest

-- Remove backends no longer in DNS.
unfoldable pub removals : Map (Unit {0}) → List String → List Action
removals found [] = []
removals found (url ∷ current) =
    let rest = removals found current in
    if Maps.has url found then rest else remove_backend url ∷ rest

-- A failing `AddBackend` or `RemoveBackend` is logged and does not stop the loops.
unfoldable pub reconcile : Bool → String → Option (List String) → Listing → List Action
unfolding discovered_from additions removals
reconcile false port ips current = []
reconcile true port none current = []
reconcile true port (some ips) failed = []
reconcile true port (some ips) (listing current) =
    let found = discovered_from port ips [] in additions current found ++ removals found current
