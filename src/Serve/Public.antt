-- ===== src/Serve/Public.antt =====
-- The binding of a key by the answer to a public request (`servePublic` and `bindStickyKey` of
-- internal/proxy/proxy.go).
use sticky_proxy.Prelude.{
  ℕ, ◌+◌, ◌≡◌, refl, sym, ap, subst, String, Bool, true, false, none, List, [], ◌∷◌, All, is_empty,
}
use sticky_proxy.Prelude.Sort.{sort}
use sticky_proxy.Maps
use sticky_proxy.UserCache
use sticky_proxy.Backends
use sticky_proxy.Backends.Exchange.{proxy_request-served}
use sticky_proxy.Hashing.{Listing, failed, listing, pick, hash_user}
use sticky_proxy.Serve.{
  Proxy, Clock, Answers, Outcome, ends, bridged, proxied, send, is_draining, bind_sticky_key,
  bind_answer, sticky_of, serve_public,
}
use sticky_proxy.Serve.Binding.{IsBound}
use sticky_proxy.Serve.Sticky.{Event, Fits, GoTo, IsBound-GoTo}

abbrev is_served : Backends.Outcome → Bool
is_served Backends.served = true
is_served Backends.unavailable = false
is_served Backends.invalid = false
is_served Backends.backend_error = false

abbrev served_outcome : Outcome → Bool
served_outcome (proxied b o) = is_served o
served_outcome (ends e) = false
served_outcome (bridged b) = false

abbrev proxied_by : Outcome → String
proxied_by (proxied b o) = b
proxied_by (bridged b) = b
proxied_by (ends e) = ""

-- The end of an exchange binds the sticky key if the backend has answered.
bind_answer-IsBound :
    (q : Proxy) (c b sticky : String) (now : ℕ) (o : Backends.Outcome)
    → is_empty sticky ≡ false
    → (o ≡ Backends.served → Maps.get c q.backends.failures ≡ none)
    → let r = (bind_answer c (sticky_of (proxied c o) sticky) now (q, proxied c o)).0 in
      r.1 ≡ proxied b Backends.served
      → is_draining r.0.drain b ≡ false
      → IsBound r.0 sticky b (now + r.0.cache.ttl)
unfolding bind_answer sticky_of is_empty bind_sticky_key UserCache.set
bind_answer-IsBound q c b sticky now Backends.unavailable ne clear h d =
    absurd (let e : false ≡ true = ap served_outcome h in cc)
bind_answer-IsBound q c b sticky now Backends.invalid ne clear h d =
    absurd (let e : false ≡ true = ap served_outcome h in cc)
bind_answer-IsBound q c b sticky now Backends.backend_error ne clear h d =
    absurd (let e : false ≡ true = ap served_outcome h in cc)
bind_answer-IsBound q c b sticky now Backends.served ne clear h d =
    bound (ap proxied_by (simp (ne) at h)) (simp (ne) at d)
  where
    bound :
        c ≡ b
        → is_draining q.drain b ≡ false
        → let r = (bind_answer c sticky now (q, proxied c Backends.served)).0 in
          IsBound r.0 sticky b (now + r.0.cache.ttl)
    bound e d = simp (ne) (
        subst (λ x. IsBound (bind_sticky_key q sticky c now).0 sticky x (now + q.cache.ttl)) e
          (record {
            cached =
                Maps.get-put_self sticky (record { backend = c; exp = now + q.cache.ttl })
                  q.cache.entries;
            healthy = clear refl;
            staying = subst (λ x. is_draining q.drain x ≡ false) (sym e) d;
          }))

-- When a backend answers a public request with a sticky routing key and does not drain, then in any
-- sequence of admitted requests and of logins that follows, each request of that key is answered by that backend, or
-- its WebSocket is bridged to it. The conditions: no more time has passed than the time to live of the
-- cache, the address of the backend parses and the exchanges with it succeed, and no later login names
-- that key. The store may answer anything, other keys may go anywhere.
pub serve_public-GoTo :
    (p : Proxy) (remote sticky b : String) (k : Clock) (a : Answers) (actives : Listing)
    (es : List Event)
    → is_empty sticky ≡ false
    → let r = (serve_public p remote sticky k a actives).0 in
      r.1 ≡ proxied b Backends.served
      → is_draining r.0.drain b ≡ false
      → All (Fits sticky b (k.stored + r.0.cache.ttl)) es
      → GoTo r.0 sticky b es
unfolding serve_public send
serve_public-GoTo p remote sticky b k a failed es ne h d fs =
    absurd (let e : false ≡ true = ap served_outcome h in cc)
serve_public-GoTo p remote sticky b k a (listing []) es ne h d fs =
    absurd (let e : false ≡ true = ap served_outcome h in cc)
serve_public-GoTo p remote sticky b k a (listing (c ∷ cs)) es ne h d fs =
    let backend = pick (hash_user remote) (sort (c ∷ cs)) in
    let sent =
      Backends.proxy_request p.backends backend k.sent k.ended (a.parses backend)
        (a.reached backend) in
    let q : Proxy = record p { backends = sent.0 } in
    let r =
      (bind_answer backend (sticky_of (proxied backend sent.1) sticky) k.stored
        (q, proxied backend sent.1)).0 in
    IsBound-GoTo sticky b (k.stored + r.0.cache.ttl) r.0 es
      (bind_answer-IsBound q backend b sticky k.stored sent.1 ne
        (proxy_request-served p.backends backend k.sent k.ended (a.parses backend)
          (a.reached backend))
        h d)
      fs
