-- ===== src/UserCache/Tests.antt =====
-- Runs of the user cache.
use sticky_proxy.Prelude.{◌≡◌, refl, some, none, str_dec, ite, if◌then◌else◌, leb, ◌+◌}
use sticky_proxy.Maps
use sticky_proxy.UserCache.{UserCache, new, get, set}
use sticky_proxy.UserCache.Laws.{seen, get-set}

abbrev two : UserCache
two = set (set (new 60) "alice" "b1" 10) "bob" "b2" 20

answers : (seen two "alice" 70 ≡ some "b1") × (seen two "alice" 71 ≡ none)
unfolding get set new Maps.get Maps.put str_dec
answers = (refl, refl)

get-set_example :
    seen (set two "alice" "b3" 30) "alice" 50
    ≡ ite
        (str_dec "alice" "alice")
        (if leb 50 (30 + two.ttl) then some "b3" else none)
        (seen two "alice" 50)
get-set_example = get-set two "alice" "alice" "b3" 30 50
