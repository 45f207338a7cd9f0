-- ===== src/RateLimiter/Tests.antt =====
-- Runs of a limiter with one token per second and a burst of two.
use sticky_proxy.Prelude.{ℕ, ◌+◌, ◌-◌, ◌*◌, ◌≤◌, ◌≡◌, refl, true, List, [], ◌∷◌, str_dec, arith}
use sticky_proxy.Maps
use sticky_proxy.RateLimiter.{new, token, run, Call, asks, cleans, allow, step}
use sticky_proxy.RateLimiter.Bound.{is_other, allowed-bound, allow-waited}

abbrev calls : List (ℕ × Call)
calls =
    (0, asks "alice")
    ∷ (1, asks "alice")
    ∷ (2, asks "alice")
    ∷ (3, asks "bob")
    ∷ (4, cleans)
    ∷ (500000000, asks "alice")
    ∷ (1500000000, asks "alice")
    ∷ []

limits : (run (new 1 2) "alice" calls).1 ≡ 3
unfolding run step new allow Maps.get Maps.put str_dec
limits = refl

-- Alice after a long time without a request.
abbrev returns : List (ℕ × Call)
returns =
    (100000000000, asks "alice")
    ∷ (100000000001, asks "alice")
    ∷ (100000000002, asks "alice")
    ∷ (100000000003, asks "alice")
    ∷ []

returns_limited : (run (run (new 1 2) "alice" calls).0 "alice" returns).1 ≡ 2
unfolding run step new allow Maps.get Maps.put str_dec
returns_limited = refl

allowed-bound_example :
    token * (run (run (new 1 2) "alice" calls).0 "alice" returns).1
    ≤ 2 * token + (100000000003 - 99999999999) * 1
unfolding new
allowed-bound_example =
    allowed-bound 1 2 0 99999999999 100000000003 "alice" calls returns (omega arith) (omega arith)
      (omega arith)

abbrev others : List (ℕ × Call)
others = (1600000000, asks "bob") ∷ (1700000000, cleans) ∷ []

allow-waited_example :
    (allow (run (run (new 1 2) "alice" calls).0 "alice" others).0 "alice" 2500000000).1 ≡ true
unfolding new str_dec is_other
allow-waited_example =
    allow-waited 1 2 0 1500000000 2500000000 "alice" calls others (omega arith) (omega arith)
      (omega arith) (refl, (refl, tt)) (omega arith) (omega arith)
