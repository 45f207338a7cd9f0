-- ===== src/Notifier.antt =====
-- `subscribeDebouncedNotifier` of internal/proxy/cache_notifier.go: invalidations from other replicas,
-- collected for a window. `arrives` is the callback of `Subscribe`, the other calls are the cases of the
-- select loop, and the requests' own calls of the shared cache; `none` is an unset timer.
pub mod Debounce
mod Tests
use sticky_proxy.Prelude.{
  ℕ, ◌+◌, String, Bool, true, false, Option, none, some, List, [], ◌∷◌, ◌++◌, length, ltb, leb,
  if◌then◌else◌,
}
use sticky_proxy.Maps
use sticky_proxy.Maps.{Map}
use sticky_proxy.UserCache
use sticky_proxy.UserCache.{UserCache, invalidate_backend}

pub record Notifier : Type 0 where
  pub window : ℕ
  pub channel : List String
  pub pending : Map (Unit {0})
  pub timer : Option ℕ
  pub cache : UserCache

unfoldable pub new : ℕ → UserCache → Notifier
new window cache = record {
  window = window;
  channel = [];
  pending = [];
  timer = none;
  cache = cache;
}

-- An event is dropped when 64 are buffered.
unfoldable pub arrives : Notifier → String → Notifier
arrives n backend =
    if ltb (length n.channel) 64 then record n { channel = n.channel ++ backend ∷ [] } else n

abbrev pub timer_from : Option ℕ → ℕ → ℕ → Option ℕ
timer_from none now window = some (now + window)
timer_from (some t) now window = some t

unfoldable pub receive : Notifier → ℕ → List String → Notifier
receive n now [] = n
receive n now (backend ∷ rest) = record n {
  channel = rest;
  pending = Maps.put backend tt n.pending;
  timer = timer_from n.timer now n.window;
}

unfoldable pub invalidate_all : List String → UserCache → UserCache
invalidate_all [] c = c
invalidate_all (b ∷ bs) c = invalidate_all bs (invalidate_backend c b)

-- The case of the timer, at a moment when it has fired.
unfoldable pub fire : Notifier → ℕ → Option ℕ → Notifier
unfolding invalidate_all
fire n now none = n
fire n now (some t) =
    if leb t now
    then record n {
      pending = [];
      timer = none;
      cache = invalidate_all (Maps.keys n.pending) n.cache;
    }
    else n

pub data Call : Type 0 where
  comes : String → Call
  receives fires : ℕ → Call
  sets : String → String → ℕ → Call
  gets : String → ℕ → Call
  forgets : String → Call

unfoldable pub step : Notifier → Call → Notifier
unfolding arrives receive fire
step n (comes b) = arrives n b
step n (receives now) = receive n now n.channel
step n (fires now) = fire n now n.timer
step n (sets key backend now) = record n { cache = UserCache.set n.cache key backend now }
step n (gets key now) = record n { cache = (UserCache.get n.cache key now).0 }
step n (forgets key) = record n { cache = UserCache.invalidate n.cache key }

unfoldable pub run : Notifier → List Call → Notifier
unfolding step
run n [] = n
run n (c ∷ cs) = run (step n c) cs
