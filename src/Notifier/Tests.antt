-- ===== src/Notifier/Tests.antt =====
-- Two invalidations of one backend within a window.
use sticky_proxy.Prelude.{◌≡◌, refl, none, List, [], ◌∷◌, ◌++◌, str_dec, arith}
use sticky_proxy.Maps
use sticky_proxy.UserCache
use sticky_proxy.UserCache.{invalidate_backend, drop_backend}
use sticky_proxy.Notifier.{
  Notifier, arrives, receive, invalidate_all, fire, Call, comes, receives, fires, sets, gets, step,
  run,
}
use sticky_proxy.Notifier.Debounce.{GoneWithin, fires-Gone}

abbrev two : Notifier
two = record {
  window = 100;
  channel = "http://a" ∷ ("http://a" ∷ []);
  pending = [];
  timer = none;
  cache = record {
    ttl = 1000;
    entries =
        ("alice", record { backend = "http://a"; exp = 900 })
        ∷ ("bob", record { backend = "http://b"; exp = 900 })
        ∷ [];
  };
}

abbrev calls : List Call
calls = comes "http://b" ∷ receives 30 ∷ sets "carl" "http://b" 40 ∷ gets "alice" 50 ∷ fires 60 ∷ []

after :
    (step (run (receive two 10 two.channel) calls) (fires 110)).cache.entries
    ≡ ("bob", record { backend = "http://b"; exp = 900 })
      ∷ ("carl", record { backend = "http://b"; exp = 1040 })
      ∷ []
unfolding step run receive arrives fire invalidate_all invalidate_backend drop_backend Maps.put
    UserCache.set UserCache.get Maps.get str_dec
after = refl

two_is_cache : Maps.Distinct two.cache.entries
unfolding Maps.get str_dec
two_is_cache = (refl, (refl, tt))

fires-Gone_example : GoneWithin (receive two 10 two.channel) (calls ++ fires 110 ∷ []) "http://a"
fires-Gone_example =
    fires-Gone two 10 110 "http://a" ("http://a" ∷ []) calls two_is_cache tt (omega arith)
