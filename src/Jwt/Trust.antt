-- ===== src/Jwt/Trust.antt =====
-- About `extractUserIDFromJWT` of internal/proxy/jwt.go over the cache of tokens.
use Prim.Native.String.{◌++◌ as concat}
use sticky_proxy.Prelude.{
  ℕ, ◌≡◌, ◌∙◌, refl, sym, ap, subst, String, Option, none, some, str_dec, Bool-cases, inl, inr, ltb,
  arith,
}
use sticky_proxy.Maps
use sticky_proxy.Maps.{Map}
use sticky_proxy.Jwt.Header.{bearer_token-eq}
use sticky_proxy.Jwt.{
  Cached, Cache, get, checked_entry, extract_bearer, set, bearer_token, Result, found, refused,
  claims_of, store_found, extract_token, extract,
}

-- The parser, which reads the clock too.
abbrev pub Parser : Type 0
Parser = ℕ → String → Option (Option String × ℕ)

-- At some moment the parser gave these claims for the token.
abbrev pub Accepted : Parser → String → Cached → Type 0
Accepted parse token jwt = (at : ℕ) × (claims_of (parse at token) ≡ found jwt)

abbrev pub IsTrusted : Parser → Cache → Type 0
IsTrusted parse c =
    (token : String) (jwt : Cached) → Maps.get token c.data_of ≡ some jwt → Accepted parse token jwt

checked_entry-IsTrusted :
    (parse : Parser) (c : Cache) (token : String) (now : ℕ) (o : Option Cached)
    → ((jwt : Cached) → o ≡ some jwt → Accepted parse token jwt)
    → IsTrusted parse c
    → IsTrusted parse (checked_entry c token now o).0
      × ((jwt : Cached) → (checked_entry c token now o).1 ≡ some jwt → Accepted parse token jwt)
unfolding checked_entry
checked_entry-IsTrusted parse c token now none a t = (t, λ jwt h. a jwt h)
checked_entry-IsTrusted parse c token now (some j) a t = elim (Bool-cases (ltb j.exp now)) [
  | inl x ↦ rw x (
    λ k jwt h. t k jwt (ground (arith, Maps.get-del token k c.data_of)),
    λ jwt h. absurd (ground arith),
  )
  | inr x ↦ rw x (t, λ jwt h. a jwt h)
]

store_found-IsTrusted :
    (parse : Parser) (c : Cache) (token : String) (now : ℕ) (r : Result)
    → claims_of (parse now token) ≡ r
    → IsTrusted parse c
    → IsTrusted parse (store_found c token r).0 × ((store_found c token r).1 ≡ r)
unfolding store_found set
store_found-IsTrusted parse c token now (refused e) h t = (t, refl)
store_found-IsTrusted parse c token now (found jwt) h t = (
  λ k j g. elim (str_dec token k) [
    | yes p ↦
        subst (λ x. Accepted parse x j) p
          (now, h ∙ ap found (ground (arith, Maps.get-put token k jwt c.data_of)))
    | no p ↦ t k j (ground (arith, Maps.get-put token k jwt c.data_of))
  ],
  refl,
)

extract_token-IsTrusted :
    (parse : Parser) (c : Cache) (token : String) (now : ℕ) (g : Cache × Option Cached)
    → IsTrusted parse g.0
    → ((jwt : Cached) → g.1 ≡ some jwt → Accepted parse token jwt)
    → IsTrusted parse (extract_token (parse now) c token g).0
      × ((jwt : Cached)
          → (extract_token (parse now) c token g).1 ≡ found jwt
          → Accepted parse token jwt)
unfolding extract_token
extract_token-IsTrusted parse c token now (c', none) t a =
    let s = store_found-IsTrusted parse c' token now (claims_of (parse now token)) refl t in
    (s.0, λ jwt h. (now, sym s.1 ∙ h))
extract_token-IsTrusted parse c token now (c', some j) t a = (t, λ jwt h. a jwt (ground arith))

extract_bearer-IsTrusted :
    (parse : Parser) (c : Cache) (now : ℕ) (o : Option String)
    → IsTrusted parse c
    → IsTrusted parse (extract_bearer (parse now) c now o).0
      × ((jwt : Cached)
          → (extract_bearer (parse now) c now o).1 ≡ found jwt
          → (token : String) × (o ≡ some token) × Accepted parse token jwt)
unfolding extract_bearer get
extract_bearer-IsTrusted parse c now none t = (t, λ jwt h. absurd (ground arith))
extract_bearer-IsTrusted parse c now (some token) t =
    let g = checked_entry-IsTrusted parse c token now (Maps.get token c.data_of) (t token) t in
    let x = extract_token-IsTrusted parse c token now (get c token now) g.0 g.1 in
    (x.0, λ jwt h. (token, refl, x.1 jwt h))

-- If every cached token was accepted by the parser at some moment, with the claims that are cached, it
-- stays so, and a request is given a routing key only if its header is "Bearer " with a token that the
-- parser accepted at some moment with that key.
pub extract-IsTrusted :
    (parse : Parser) (c : Cache) (header : String) (now : ℕ)
    → IsTrusted parse c
    → IsTrusted parse (extract (parse now) c header now).0
      × ((jwt : Cached)
          → (extract (parse now) c header now).1 ≡ found jwt
          → (token : String) × (header ≡ concat "Bearer " token) × Accepted parse token jwt)
unfolding extract
extract-IsTrusted parse c header now t =
    let x = extract_bearer-IsTrusted parse c now (bearer_token header) t in
    (x.0, λ jwt h. let g = x.1 jwt h in (g.0, bearer_token-eq header g.0 g.1, g.2))
