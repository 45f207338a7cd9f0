-- ===== src/Dns/Agreement.antt =====
-- The active set after a reconcile of internal/proxy/discovery_backends.go.
use sticky_proxy.Prelude.{
  ◌≡◌, ◌∙◌, refl, ap, String, Bool, true, false, ◌||◌, ◌&&◌, not, some, List, [], ◌∷◌, ◌++◌, map,
  listed, str_dec, ite, arith,
}
use sticky_proxy.Maps
use sticky_proxy.Maps.{Map}
use sticky_proxy.Hashing.{listing}
use sticky_proxy.Dns.{
  Action, add_backend, remove_backend, url_of, discovered_from, additions, removals, reconcile,
}

-- Whether a backend is in the active set after the actions, where the store does not fail.
unfoldable pub effects : String → Bool → List Action → Bool
effects k now [] = now
effects k now (add_backend url ∷ actions) = effects k (ite (str_dec url k) true now) actions
effects k now (remove_backend url ∷ actions) = effects k (ite (str_dec url k) false now) actions

effects-append :
    (k : String) (now : Bool) (xs ys : List Action)
    → effects k now (xs ++ ys) ≡ effects k (effects k now xs) ys
unfolding effects
effects-append k now [] ys = refl
effects-append k now (add_backend url ∷ xs) ys =
    effects-append k (ite (str_dec url k) true now) xs ys
effects-append k now (remove_backend url ∷ xs) ys =
    effects-append k (ite (str_dec url k) false now) xs ys

discovered_from-has :
    (port : String) (ips : List String) (found : Map (Unit {0})) (k : String)
    → Maps.has k (discovered_from port ips found)
      ≡ listed k (map (λ ip. url_of ip port) ips) || Maps.has k found
unfolding discovered_from listed
discovered_from-has port [] found k = refl
discovered_from-has port (ip ∷ ips) found k = ground (
  arith,
  discovered_from-has port ips (Maps.put (url_of ip port) tt found) k,
  Maps.has-put (url_of ip port) k tt found,
)

effects-additions :
    (k : String) (now : Bool) (current : List String) (found : Map (Unit {0}))
    → (listed k current ≡ true → now ≡ true)
    → effects k now (additions current found) ≡ now || Maps.has k found
unfolding effects additions Maps.has Maps.get
effects-additions k now current [] h = ground arith
effects-additions k now current ((url, u) ∷ found) h = ground (
  arith,
  effects-additions k now current found h,
  effects-additions k (ite (str_dec url k) true now) current found,
  ap (λ x. listed x current),
)

effects-removals :
    (k : String) (now : Bool) (found : Map (Unit {0})) (current : List String)
    → effects k now (removals found current) ≡ now && (Maps.has k found || not (listed k current))
unfolding effects removals listed
effects-removals k now found [] = ground arith
effects-removals k now found (url ∷ current) = ground (
  arith,
  effects-removals k now found current,
  effects-removals k (ite (str_dec url k) false now) found current,
  ap (λ x. Maps.has x found),
)

-- When the resolver and the store answer, and the store does what it is asked, the active set after a
-- reconcile is exactly the set of the addresses that the resolver gave.
pub effects-reconcile :
    (port : String) (ips current : List String) (k : String)
    → effects k (listed k current) (reconcile true port (some ips) (listing current))
      ≡ listed k (map (λ ip. url_of ip port) ips)
unfolding reconcile
effects-reconcile port ips current k =
    let found = discovered_from port ips [] in
    let all : Maps.has k found ≡ listed k (map (λ ip. url_of ip port) ips) =
      discovered_from-has port ips [] k ∙ (unfold Maps.has Maps.get in ground arith) in
    effects-append k (listed k current) (additions current found) (removals found current)
    ∙ ap (λ x. effects k x (removals found current))
        (effects-additions k (listed k current) current found (λ e. e))
    ∙ effects-removals k (listed k current || Maps.has k found) found current
    ∙ ground (arith, all)
