-- ===== src/Routing/Fallback.antt =====
-- `AssignBackend` of internal/proxy/redis.go: when Redis is asked, and what is answered.
use sticky_proxy.Prelude.{
  Timed, ℕ, ◌^◌, ◌<◌, ◌≤◌, ◌≡◌, ◌≢◌, ◌⊎◌, inl, inr, refl, String, true, false, not, List, [],
  length, is_empty, listed, Bool-cases, arith,
}
use sticky_proxy.Breaker
use sticky_proxy.Breaker.{Breaker, Call}
use sticky_proxy.Breaker.Meaning.{blocks, observe_all, is_open-blocks}
use sticky_proxy.Hashing.{hash_fallback}
use sticky_proxy.Hashing.Stable.{hash_fallback-listed}
use sticky_proxy.Routing.{
  Redis, Answer, fails, absent, unexpected, text, backend, or_fallback, after_script,
  assign_backend,
}

-- A cached list that a proxy may fall back on: not empty, and without an empty address.
pub record IsWarm (backends : List String) : Type 0 where
  pub present : backends ≢ []
  pub small : length backends < 2 ^ 32
  pub named : listed "" backends ≡ false

listed-named :
    (bs : List String) (b : String) → listed "" bs ≡ false → listed b bs ≡ true → is_empty b ≡ false
unfolding is_empty
listed-named bs String.[] n l = ground arith
listed-named bs (String.◌∷◌ c s) n l = refl

fallback-named :
    (backends : List String) (hash : ℕ)
    → IsWarm backends
    → (is_empty (hash_fallback backends hash) ≡ false)
      × (listed (hash_fallback backends hash) backends ≡ true)
fallback-named backends hash w = elim (hash_fallback-listed backends hash w.small) [
  | inl empty ↦ absurd (w.present empty.0)
  | inr l ↦ (listed-named backends (hash_fallback backends hash) w.named l, l)
]

-- With a warm list of backends, a threshold greater than 0, and calls in the order of the clock, the
-- script is run exactly when the breaker does not block: fewer than `threshold` failures since the last
-- success, or a cooldown has passed since the last failure. While it blocks, the answer is a cached
-- backend.
pub assign_backend-blocks :
    (threshold cooldown end now later hash : ℕ) (cs : List (ℕ × Call)) (backends : List String)
    (answer : Answer)
    → 0 < threshold
    → Timed 0 end cs
    → end ≤ now
    → IsWarm backends
    → let r : Redis = record {
      breaker = Breaker.run (Breaker.new threshold cooldown) cs;
      cached_backends = backends;
    } in
      let blocked =
        blocks threshold cooldown (observe_all (record { count = 0; last = 0 }) cs) now in
      let out = assign_backend r now later hash answer in
      (out.1 ≡ not blocked)
      × (blocked ≡ true → (b : String) × (out.0.1 ≡ backend b) × (listed b backends ≡ true))
unfolding assign_backend
assign_backend-blocks threshold cooldown end now later hash cs backends answer live t le w =
    let e = is_open-blocks threshold cooldown end now cs live t le in
    let f = fallback-named backends hash w in
    rw (e, f.0) (ground arith, λ h. rw h (hash_fallback backends hash, refl, f.1))

-- With a warm list of backends, `AssignBackend` answers a backend whatever Redis answers, unless it
-- answers a value that is no text: the backend that Redis names, or a cached one.
pub assign_backend-warm :
    (r : Redis) (now later hash : ℕ) (answer : Answer)
    → IsWarm r.cached_backends
    → answer ≢ unexpected
    → (b : String) × ((assign_backend r now later hash answer).0.1 ≡ backend b)
      × ((listed b r.cached_backends ≡ true) ⊎ (answer ≡ text b))
unfolding assign_backend after_script or_fallback
assign_backend-warm r now later hash answer w ne =
    let f = fallback-named r.cached_backends hash w in
    elim (Bool-cases (Breaker.is_open r.breaker now).1) [
      | inl e ↦ rw (e, f.0) (hash_fallback r.cached_backends hash, refl, inl f.1)
      | inr e ↦ rw e (answered answer ne f.0 f.1)
    ]
  where
    answered :
        (a : Answer)
        → a ≢ unexpected
        → is_empty (hash_fallback r.cached_backends hash) ≡ false
        → listed (hash_fallback r.cached_backends hash) r.cached_backends ≡ true
        → (b : String) × ((after_script
              (record r { breaker = (Breaker.is_open r.breaker now).0 })
              later
              (hash_fallback r.cached_backends hash)
              a).1
            ≡ backend b)
          × ((listed b r.cached_backends ≡ true) ⊎ (a ≡ text b))
    answered fails ne e l = rw e (hash_fallback r.cached_backends hash, refl, inl l)
    answered absent ne e l = rw e (hash_fallback r.cached_backends hash, refl, inl l)
    answered unexpected ne e l = absurd (ne refl)
    answered (text b) ne e l = (b, refl, inr refl)
