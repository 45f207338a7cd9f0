-- ===== src/Serve/Trusted.antt =====
-- Which requests pass the checks at the start of `ServeHTTP` (internal/proxy/proxy.go).
use Prim.Native.String.{◌++◌ as concat}
use sticky_proxy.Prelude.{
  ℕ, ◌≡◌, refl, subst, String, Bool, true, false, Option, none, some, Bool-cases, inl, inr, arith,
}
use sticky_proxy.Poison
use sticky_proxy.Poison.{Detector}
use sticky_proxy.RateLimiter
use sticky_proxy.Jwt
use sticky_proxy.Jwt.{Cached}
use sticky_proxy.Jwt.Trust.{Parser, Accepted, IsTrusted, extract-IsTrusted}
use sticky_proxy.Serve.{Proxy, admitted, check_quarantine, check_limit, admit}

abbrev pub is_out : Option Detector → String → Bool
is_out none key = false
is_out (some d) key = Poison.is_quarantined d key

check_quarantine-admitted :
    (o : Option Detector) (key key' : String)
    → check_quarantine o key ≡ admitted key'
    → (key ≡ key') × (is_out o key ≡ false)
unfolding check_quarantine
check_quarantine-admitted none key key' h = (ground arith, refl)
check_quarantine-admitted (some d) key key' h = ground arith

-- What is known of an admitted key.
abbrev pub Passed : Proxy → ℕ → Jwt.Result → String → Type 0
Passed p later r key =
    (jwt : Cached) × (r ≡ Jwt.found jwt)
    × (jwt.routing_key ≡ key)
    × ((RateLimiter.allow p.limiter key later).1 ≡ true)
    × (is_out p.poison key ≡ false)

check_limit-admitted :
    (p : Proxy) (later : ℕ) (r : Jwt.Result) (key : String)
    → (check_limit p later r).1 ≡ admitted key
    → Passed p later r key
unfolding check_limit
check_limit-admitted p later (Jwt.refused e) key h = absurd (ground arith)
check_limit-admitted p later (Jwt.found jwt) key h =
    elim (Bool-cases (RateLimiter.allow p.limiter jwt.routing_key later).1) [
      | inr e ↦ absurd (ground arith)
      | inl e ↦
          let q = check_quarantine-admitted p.poison jwt.routing_key key (ground arith) in
          (
            jwt,
            refl,
            q.0,
            subst (λ x. (RateLimiter.allow p.limiter x later).1 ≡ true) q.0 e,
            subst (λ x. is_out p.poison x ≡ false) q.0 q.1,
          )
    ]

check_limit-jwt_cache :
    (p : Proxy) (later : ℕ) (r : Jwt.Result) → (check_limit p later r).0.jwt_cache ≡ p.jwt_cache
unfolding check_limit
check_limit-jwt_cache p later (Jwt.refused e) = refl
check_limit-jwt_cache p later (Jwt.found jwt) = refl

-- If the cached tokens were accepted by the parser, they still are after the request, and a key is
-- admitted only if the header is "Bearer " with a token that the parser accepted at some moment with that
-- key, the rate limiter lets the key through, and the key is not quarantined.
pub admit-admitted :
    (parse : Parser) (p : Proxy) (header key : String) (now later : ℕ)
    → IsTrusted parse p.jwt_cache
    → IsTrusted parse (admit (parse now) p header now later).0.jwt_cache
      × ((admit (parse now) p header now later).1 ≡ admitted key
          → (token : String) × (jwt : Cached) × (header ≡ concat "Bearer " token)
            × Accepted parse token jwt
            × (jwt.routing_key ≡ key)
            × ((RateLimiter.allow p.limiter key later).1 ≡ true)
            × (is_out p.poison key ≡ false))
unfolding admit
admit-admitted parse p header key now later t =
    let x = extract-IsTrusted parse p.jwt_cache header now t in
    let r = Jwt.extract (parse now) p.jwt_cache header now in
    let p' : Proxy = record p { jwt_cache = r.0 } in
    (
      rw (check_limit-jwt_cache p' later r.1) x.0,
      λ h.
          let c = check_limit-admitted p' later r.1 key h in
          let g = x.1 c.0 c.1 in (g.0, c.0, g.1, g.2, c.2, c.3, c.4),
    )
