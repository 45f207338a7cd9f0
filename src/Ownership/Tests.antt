-- ===== src/Ownership/Tests.antt =====
-- A check of three users in batches of two.
use sticky_proxy.Prelude.{
  ◌≡◌, refl, String, not, ◌&&◌, ◌||◌, Option, none, some, List, [], ◌∷◌, map, listed, str_dec, ite,
  arith,
}
use sticky_proxy.Maps
use sticky_proxy.Ownership.{Checker, track, new, check}
use sticky_proxy.Ownership.Evictions.{is_lost, check-is_lost}

abbrev redis : String → Option String
redis key =
    ite (str_dec key "sticky:bob") (some "http://b2")
      (ite (str_dec key "sticky:carol") none (some "http://b1"))

abbrev mget : List String → Option (List (Option String))
mget keys = some (map redis keys)

abbrev start : Checker
start = record (track (track (track (new "http://b1") "alice") "bob") "carol") { batch_size = 2 }

evicts : (check mget start).evicted ≡ "bob" ∷ "carol" ∷ []
unfolding check track new Maps.put Maps.del str_dec
evicts = refl

check-is_lost_example :
    (Maps.has "bob" (check mget start).users
      ≡ Maps.has "bob" start.users && not (is_lost redis start.my_addr "bob"))
    × (listed "bob" (check mget start).evicted
        ≡ listed "bob" start.evicted
          || (Maps.has "bob" start.users && is_lost redis start.my_addr "bob"))
check-is_lost_example = check-is_lost mget redis start "bob" (λ keys. refl) (omega arith)
