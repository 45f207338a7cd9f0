-- ===== src/Serve/Sticky.antt =====
-- Where the requests of one key go, among those of all keys (`ServeHTTP` of internal/proxy/proxy.go).
use sticky_proxy.Prelude.{
  ℕ, ◌+◌, ◌≤◌, ◌≡◌, ◌≢◌, refl, sym, subst, String, Bool, true, false, Option, none, some, List, [],
  ◌∷◌, All, str_dec, not, ◌&&◌, Bool-cases, inl, inr, arith,
}
use sticky_proxy.Maps
use sticky_proxy.UserCache
use sticky_proxy.Backends
use sticky_proxy.Poison
use sticky_proxy.Poison.{Detector}
use sticky_proxy.Hashing.{Listing}
use sticky_proxy.Serve.{
  Proxy, Clock, Answers, Decision, denied, kept, fresh, Outcome, cache_assigned, assign, miss,
  is_draining, forget, force, check_cached, route, send, forward, serve, serve_public,
}
use sticky_proxy.Serve.Logins.{serve_public-IsBound}
use sticky_proxy.Serve.Binding.{
  goes_to, IsBound, route-IsBound, route-kept, forward-IsBound, forward-kept,
}

-- A request of a key, of a WebSocket or not.
pub record Visit : Type 0 where
  pub key : String
  pub websocket : Bool
  pub clock : Clock
  pub answers : Answers

unfoldable pub visit : Proxy → Visit → Proxy × Outcome
unfolding serve
visit p v = (serve p v.key v.websocket v.clock v.answers).0

-- A public request, whose backend answers with the sticky routing key.
pub record Login : Type 0 where
  pub remote : String
  pub sticky : String
  pub clock : Clock
  pub answers : Answers
  pub actives : Listing

pub data Event : Type 0 where
  visits : Visit → Event
  logs_in : Login → Event

unfoldable pub log_in : Proxy → Login → Proxy
unfolding serve_public
log_in p l = (serve_public p l.remote l.sticky l.clock l.answers l.actives).0.0

-- The backend answers the requests of the key, or their WebSocket is bridged to it; those of the other
-- keys go anywhere.
unfoldable pub GoTo : Proxy → String → String → List Event → Type 0
unfolding visit log_in
GoTo p key b [] = Unit
GoTo p key b (visits v ∷ es) =
    (v.key ≡ key → goes_to (visit p v).1 ≡ some b) × GoTo (visit p v).0 key b es
GoTo p key b (logs_in l ∷ es) = GoTo (log_in p l) key b es

-- The exchanges with the backend succeed, no request is later than the expiry, and no login names the
-- key.
abbrev pub Fits : String → String → ℕ → Event → Type 0
Fits key b exp (visits v) =
    (v.clock.looked_up ≤ exp) × (v.answers.parses b ≡ true) × (v.answers.reached b ≡ true)
Fits key b exp (logs_in l) = (l.sticky ≢ key) × (l.answers.reached b ≡ true)

module _ (key b : String) (exp : ℕ) where
  visit-IsBound :
      (p : Proxy) (v : Visit)
      → IsBound p key b exp
      → Fits key b exp (visits v)
      → IsBound (visit p v).0 key b exp × (v.key ≡ key → goes_to (visit p v).1 ≡ some b)
  unfolding visit serve
  visit-IsBound p v h f = elim (str_dec v.key key) [
    | no q ↦ (
      forward-IsBound key b exp v.websocket v.clock v.answers (route p v.key v.clock v.answers) f.2
          (route-IsBound key b exp p v.key v.clock v.answers q f.0 h),
      λ e. absurd (q e),
    )
    | yes q ↦
        let r = route-kept key b exp p v.clock v.answers f.0 h in
        let own = λ (x : IsBound (route p key v.clock v.answers).0 key b exp).
          forward-IsBound key b exp v.websocket v.clock v.answers (route p key v.clock v.answers)
            f.2 x in
        rw q (
          own r.0,
          λ e.
              forward-kept key b exp v.websocket v.clock v.answers (route p key v.clock v.answers)
                f.1 f.2 r.0 r.1,
        )
  ]

  -- A bound key goes to its backend until its entry expires.
  pub IsBound-GoTo :
      (p : Proxy) (es : List Event)
      → IsBound p key b exp
      → All (Fits key b exp) es
      → GoTo p key b es
  unfolding GoTo log_in
  IsBound-GoTo p [] h fs = tt
  IsBound-GoTo p (visits v ∷ es) h fs =
      let r = visit-IsBound p v h fs.0 in (r.1, IsBound-GoTo (visit p v).0 es r.0 fs.1)
  IsBound-GoTo p (logs_in l ∷ es) h fs =
      IsBound-GoTo (log_in p l) es
        (serve_public-IsBound key b exp p l.remote l.sticky l.clock l.answers l.actives fs.0.0
          fs.0.1 h)
        fs.1

-- The entry that a fresh assignment leaves.
abbrev Stored : String → ℕ → Proxy × Decision → Type 0
Stored key now r =
    (b : String)
    → r.1 ≡ fresh b
    → Maps.get key r.0.cache.entries ≡ some (record { backend = b; exp = now + r.0.cache.ttl })

miss-Stored :
    (p : Proxy) (key : String) (k : Clock) (a : Answers) → Stored key k.stored (miss p key k a)
unfolding miss cache_assigned UserCache.set
miss-Stored p key k a = split (assign p key k a)
  where
    split : (r : Proxy × Option String) → Stored key k.stored (cache_assigned key k.stored r)
    split (q, none) b e = absurd (ground arith)
    split (q, some c) b e = ground (
      arith,
      Maps.get-put_self key (record { backend = c; exp = k.stored + q.cache.ttl }) q.cache.entries,
    )

force-Stored :
    (p : Proxy) (o : Option Detector) (key : String) (k : Clock) (a : Answers)
    → Stored key k.stored (force p o key k a)
unfolding force
force-Stored p none key k a = miss-Stored (forget p key) key k a
force-Stored p (some d) key k a =
    let r = Poison.record_reassignment d key k.recorded in
    elim (Bool-cases r.1) [
      | inl e ↦ rw e (λ b f. absurd (ground arith))
      | inr e ↦ rw e (miss-Stored (forget (record p { poison = some r.0 }) key) key k a)
    ]

check_cached-Stored :
    (p : Proxy) (key : String) (k : Clock) (a : Answers) (o : Option String)
    → Stored key k.stored (check_cached p key k a o)
unfolding check_cached
check_cached-Stored p key k a none = miss-Stored p key k a
check_cached-Stored p key k a (some c) =
    let r = Backends.available p.backends c k.checked in
    let p' : Proxy = record p { backends = r.0 } in
    elim (Bool-cases (r.1 && not (is_draining p.drain c))) [
      | inl e ↦ rw e (λ b f. absurd (ground arith))
      | inr e ↦ rw e (force-Stored p' p.poison key k a)
    ]

route-Stored :
    (p : Proxy) (key : String) (k : Clock) (a : Answers) → Stored key k.stored (route p key k a)
unfolding route
route-Stored p key k a =
    let r = UserCache.get p.cache key k.looked_up in
    check_cached-Stored (record p { cache = r.0 }) key k a r.1

forward-cache :
    (ws : Bool) (k : Clock) (a : Answers) (r : Proxy × Decision)
    → (forward ws k a r).0.cache ≡ r.0.cache
unfolding forward send
forward-cache ws k a (p, denied e) = refl
forward-cache true k a (p, kept c) = refl
forward-cache true k a (p, fresh c) = refl
forward-cache false k a (p, kept c) = refl
forward-cache false k a (p, fresh c) = refl

-- Stickiness: when a request of a key has been assigned a backend that has no failures and does not
-- drain after it, then in any sequence of admitted requests and of logins that follows, each request of
-- the key is answered by that backend, or its WebSocket is bridged to it. The conditions: no more time
-- has passed than the time to live of the cache, the address of the backend parses and the exchanges with
-- it succeed, and no login names that key. The store may answer anything, other keys may go anywhere.
pub serve-GoTo :
    (p : Proxy) (key : String) (ws : Bool) (k : Clock) (a : Answers) (b : String) (es : List Event)
    → (route p key k a).1 ≡ fresh b
    → let q = (serve p key ws k a).0.0 in
      Maps.get b q.backends.failures ≡ none
      → is_draining q.drain b ≡ false
      → All (Fits key b (k.stored + q.cache.ttl)) es
      → GoTo q key b es
unfolding serve
serve-GoTo p key ws k a b es f healthy staying fs =
    let q = (forward ws k a (route p key k a)).0 in
    let same = forward-cache ws k a (route p key k a) in
    IsBound-GoTo key b (k.stored + q.cache.ttl) q es
      (record {
        cached =
            subst
              (λ c. Maps.get key c.entries ≡ some (record { backend = b; exp = k.stored + c.ttl }))
              (sym same) (route-Stored p key k a b f);
        healthy = healthy;
        staying = staying;
      })
      fs
