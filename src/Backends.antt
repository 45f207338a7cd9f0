-- ===== src/Backends.antt =====
-- internal/proxy/backends.go: the circuit breaker of each backend and the request path through it.
-- Moments are nanoseconds after Go's zero time, which is 0: a failure that has not opened the circuit
-- has `until` 0. `url.Parse` and the exchange with the backend are arguments. What a recorded failure
-- starts besides (`invalidateStickyMappings`, in a goroutine) is not modelled.
pub mod Circuit
pub mod Exchange
mod Tests
use sticky_proxy.Prelude.{
  ℕ, ◌+◌, String, Bool, true, false, Option, none, some, List, [], ◌∷◌, ltb, leb, if◌then◌else◌,
  get_or,
}
use sticky_proxy.Maps
use sticky_proxy.Maps.{Map}

pub record Failure : Type 0 where
  pub count : ℕ
  pub until : ℕ

-- `proxies` keeps the cached reverse proxies by their key alone.
pub record Manager : Type 0 where
  pub failures : Map Failure
  pub proxies : Map (Unit {0})
  pub eviction_threshold : ℕ
  pub eviction_cooldown : ℕ

abbrev pub fresh : Failure
fresh = record { count = 0; until = 0 }

unfoldable pub count_failure : Manager → Failure → ℕ → Failure
count_failure b f now =
    if leb b.eviction_threshold (f.count + 1)
    then record { count = f.count + 1; until = now + b.eviction_cooldown }
    else record f { count = f.count + 1 }

-- The answer is `shouldEvict`: whether the invalidation of the sticky mappings is started.
unfoldable pub record_failure : Manager → String → ℕ → Manager × Bool
unfolding count_failure
record_failure b backend now =
    let f = get_or fresh (Maps.get backend b.failures) in
    let evict = leb b.eviction_threshold (f.count + 1) in
    (
      record b {
        failures = Maps.put backend (count_failure b f now) b.failures;
        proxies = if evict then Maps.del backend b.proxies else b.proxies;
      },
      evict,
    )

unfoldable pub available : Manager → String → ℕ → Manager × Bool
available b backend now = elim (Maps.get backend b.failures) [
  | none ↦ (b, true)
  | some f ↦
      if ltb f.until now
      then (record b { failures = Maps.del backend b.failures }, true)
      else (b, false)
]

-- `getOrCreateProxy`, given whether `url.Parse` accepts the address; the answer is false on its error
unfoldable pub get_or_create_proxy : Manager → String → Bool → Manager × Bool
get_or_create_proxy b backend parses =
    if Maps.has backend b.proxies
    then (b, true)
    else if parses
    then (record b { proxies = Maps.put backend tt b.proxies }, true)
    else (b, false)

-- How a request ends: with the status 503, with 502 for a bad address, with the answer of the
-- backend, or with 502 after a transport error.
pub data Outcome : Type 0 where
  unavailable invalid served backend_error : Outcome

-- `ServeHTTP` of the reverse proxy: a transport error, at the moment `later`, counts as a failure.
unfoldable pub serve : Manager → String → ℕ → Bool → Manager × Outcome
unfolding record_failure
serve b backend later reached =
    if reached then (b, served) else ((record_failure b backend later).0, backend_error)

unfoldable pub proxy_request : Manager → String → ℕ → ℕ → Bool → Bool → Manager × Outcome
unfolding available get_or_create_proxy serve
proxy_request b backend now later parses reached =
    let (b₁, open_for) = available b backend now in
    if open_for
    then (let (b₂, found) = get_or_create_proxy b₁ backend parses in
        if found then serve b₂ backend later reached else (b₂, invalid))
    else (b₁, unavailable)

-- A check of availability or a recorded failure, of a backend, at a moment.
pub data Call : Type 0 where
  checked failed : String → Call

unfoldable pub step : Manager → ℕ × Call → Manager
unfolding available record_failure
step b (now, checked backend) = (available b backend now).0
step b (now, failed backend) = (record_failure b backend now).0

unfoldable pub run : Manager → List (ℕ × Call) → Manager
run b [] = b
run b (c ∷ cs) = run (step b c) cs

unfoldable pub new : ℕ → ℕ → Manager
new threshold cooldown = record {
  failures = [];
  proxies = [];
  eviction_threshold = threshold;
  eviction_cooldown = cooldown;
}
