-- ===== src/Lock.antt =====
-- The transition lock across replicas: `TransitionLock` of internal/proxy/transition.go over
-- `RedisDistributedLocker` of internal/proxy/redis.go. An operation is a number; `holders` are those whose
-- `Lock` has returned true and that have not called `Unlock`, each with the moment of its `SetNX`. Redis
-- forgets a key when its time to live is over. The local mutex only makes the operations of one replica
-- wait for each other, and is left out.
pub mod Exclusion
mod Tests
use sticky_proxy.Prelude.{
  ℕ, ◌+◌, Bool, true, false, Option, none, some, List, [], ◌∷◌, leb, ◌==◌, if◌then◌else◌,
}

pub record Lock : Type 0 where
  pub ttl : ℕ
  pub expiry : Option ℕ
  pub holders : List (ℕ × ℕ)

unfoldable pub new : ℕ → Lock
new ttl = record { ttl = ttl; expiry = none; holders = [] }

-- There is no key, or its time is over.
unfoldable pub is_free : Option ℕ → ℕ → Bool
is_free none now = true
is_free (some expiry) now = leb expiry now

-- `Lock`, and its answer; `reached` is false when `TryLock` has an error.
unfoldable pub lock : Lock → ℕ → ℕ → Bool → Lock × Bool
unfolding is_free
lock l op now reached =
    if reached
    then (if is_free l.expiry now
        then (record l { expiry = some (now + l.ttl); holders = (op, now) ∷ l.holders }, true)
        else (l, false))
    else (l, false)

unfoldable pub remove : ℕ → List (ℕ × ℕ) → List (ℕ × ℕ)
remove op [] = []
remove op ((o, since) ∷ hs) = let rest = remove op hs in if o == op then rest else (o, since) ∷ rest

-- `Unlock`, which only a holder calls: the key is deleted, whoever has set it; `reached` is false when `Del`
-- has an error, which is ignored.
unfoldable pub unlock : Lock → ℕ → Bool → Lock
unfolding remove
unlock l op reached = record l {
  expiry = if reached then none else l.expiry;
  holders = remove op l.holders;
}

pub data Call : Type 0 where
  locks : ℕ → ℕ → Bool → Call
  unlocks : ℕ → Bool → Call

unfoldable pub step : Lock → Call → Lock
unfolding lock unlock
step l (locks op now reached) = (lock l op now reached).0
step l (unlocks op reached) = unlock l op reached

unfoldable pub run : Lock → List Call → Lock
unfolding step
run l [] = l
run l (c ∷ cs) = run (step l c) cs
