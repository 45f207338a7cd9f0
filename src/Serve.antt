-- ===== src/Serve.antt =====
-- internal/proxy/proxy.go: how `ServeHTTP` answers a request, over the components of the other files.
-- What the store, Redis, `url.Parse` and the backend answer, and the moment of each look at the clock,
-- are arguments. A request is two steps, `admit` and then, after a wait for a transition of its key,
-- `serve`; each is taken as a whole. Metrics and logging are left out.
pub mod Trusted
pub mod Binding
pub mod Logins
pub mod Sticky
pub mod Forced
pub mod Draining
pub mod Public
mod Tests
use sticky_proxy.Prelude.{
  ℕ, String, Bool, true, false, not, ◌&&◌, Option, none, some, List, [], ◌∷◌, if◌then◌else◌,
  is_empty, has_prefix,
}
use sticky_proxy.Prelude.Int.{pos}
use sticky_proxy.Prelude.Sort.{sort}
use sticky_proxy.Maps
use sticky_proxy.Maps.{Map}
use sticky_proxy.Assignment.{BulkAssignEntry}
use sticky_proxy.Hashing.{Listing, failed, listing, hash_user, pick, assign_via_hash}
use sticky_proxy.Routing.{Redis, Assigned, assign_via_table}
use sticky_proxy.Routing
use sticky_proxy.UserCache
use sticky_proxy.UserCache.{UserCache}
use sticky_proxy.Backends
use sticky_proxy.Backends.{Manager}
use sticky_proxy.Poison
use sticky_proxy.Poison.{Detector}
use sticky_proxy.RateLimiter
use sticky_proxy.RateLimiter.{RateLimiter}
use sticky_proxy.Jwt
use sticky_proxy.Drains
use sticky_proxy.Drains.{Drains}

-- The fields of the struct `Proxy` that a request uses; `by_table` is `routingMode == "assignment"`, and
-- `has_hooks` says that there is a hook client.
pub record Proxy : Type 0 where
  pub redis : Option Redis
  pub cache : UserCache
  pub backends : Manager
  pub jwt_cache : Jwt.Cache
  pub limiter : RateLimiter
  pub drain : Option Drains
  pub poison : Option Detector
  pub by_table : Bool
  pub has_hooks : Bool
  pub public_paths : List String

-- The moments at which one request looks at the clock.
pub record Clock : Type 0 where
  pub looked_up : ℕ
  pub checked : ℕ
  pub recorded : ℕ
  pub asked : ℕ
  pub failed_at : ℕ
  pub stored : ℕ
  pub sent : ℕ
  pub ended : ℕ

-- What the store answers a request: `ActiveBackends` in hash mode, `AssignLeastLoaded` in assignment
-- mode; the addresses that `url.Parse` accepts, and the backends with which the exchange succeeds.
pub record Answers : Type 0 where
  pub actives : Listing
  pub assigned : Assigned
  pub parses : String → Bool
  pub reached : String → Bool

-- How a request ends that is not sent to a backend: with the statuses 401, 429 and 503.
pub data Refusal : Type 0 where
  unauthorized limited quarantined no_backend : Refusal

pub data Admission : Type 0 where
  refused : Refusal → Admission
  admitted : String → Admission

-- The path of a request starts with one of the prefixes.
unfoldable pub is_public_path : List String → String → Bool
is_public_path [] path = false
is_public_path (prefix ∷ rest) path =
    if has_prefix path prefix then true else is_public_path rest path

unfoldable pub check_quarantine : Option Detector → String → Admission
check_quarantine none key = admitted key
check_quarantine (some d) key =
    if Poison.is_quarantined d key then refused quarantined else admitted key

unfoldable pub check_limit : Proxy → ℕ → Jwt.Result → Proxy × Admission
unfolding check_quarantine
check_limit p now (Jwt.refused e) = (p, refused unauthorized)
check_limit p now (Jwt.found jwt) =
    let (limiter, allowed) = RateLimiter.allow p.limiter jwt.routing_key now in
    (
      record p { limiter = limiter },
      if allowed then check_quarantine p.poison jwt.routing_key else refused limited,
    )

-- A request up to the wait: its header, at the moments of the token cache and of the rate limiter.
unfoldable pub admit :
    (String → Option (Option String × ℕ)) → Proxy → String → ℕ → ℕ → Proxy × Admission
unfolding check_limit
admit parse p header now later =
    let (cache, result) = Jwt.extract parse p.jwt_cache header now in
    check_limit (record p { jwt_cache = cache }) later result

-- Where a request goes: to the backend of the cache, to a newly assigned one, or nowhere.
pub data Decision : Type 0 where
  denied : Refusal → Decision
  kept fresh : String → Decision

abbrev pub result_of : Routing.Result → Option String
result_of (Routing.backend b) = some b
result_of Routing.error = none

-- The assignment of the routing mode; `none` is an error.
unfoldable pub assign : Proxy → String → Clock → Answers → Proxy × Option String
assign p key k a =
    if p.by_table
    then (let ((r, result), asked) = assign_via_table p.redis key k.asked k.failed_at a.assigned in
        (record p { redis = r }, result_of result))
    else (p, assign_via_hash a.actives key)

unfoldable pub cache_assigned : String → ℕ → Proxy × Option String → Proxy × Decision
cache_assigned key now (p, none) = (p, denied no_backend)
cache_assigned key now (p, some b) = (record p { cache = UserCache.set p.cache key b now }, fresh b)

-- The path of `err != nil`.
unfoldable pub miss : Proxy → String → Clock → Answers → Proxy × Decision
unfolding assign cache_assigned
miss p key k a = cache_assigned key k.stored (assign p key k a)

unfoldable pub is_draining : Option Drains → String → Bool
is_draining none b = false
is_draining (some d) b = Drains.is_draining d b

abbrev pub forget : Proxy → String → Proxy
forget p key = record p { cache = UserCache.invalidate p.cache key }

-- A cached backend that is not available or drains: a forced reassignment.
unfoldable pub force : Proxy → Option Detector → String → Clock → Answers → Proxy × Decision
unfolding miss
force p none key k a = miss (forget p key) key k a
force p (some d) key k a =
    let (d', blocked) = Poison.record_reassignment d key k.recorded in
    let counted = record p { poison = some d' } in
    if blocked then (counted, denied quarantined) else miss (forget counted key) key k a

unfoldable pub check_cached : Proxy → String → Clock → Answers → Option String → Proxy × Decision
unfolding miss is_draining force
check_cached p key k a none = miss p key k a
check_cached p key k a (some b) =
    let (backends, up) = Backends.available p.backends b k.checked in
    let p' = record p { backends = backends } in
    if up && not (is_draining p.drain b) then (p', kept b) else force p' p.poison key k a

-- From the lookup in the cache to the backend.
unfoldable pub route : Proxy → String → Clock → Answers → Proxy × Decision
unfolding check_cached
route p key k a =
    let (cache, found) = UserCache.get p.cache key k.looked_up in
    check_cached (record p { cache = cache }) key k a found

-- What a proxy asks of others besides.
pub data Action : Type 0 where
  send_assign : String → List String → Action
  bulk_assign : Map BulkAssignEntry → Action

unfoldable pub notices : Bool → String → Decision → List Action
notices has_hooks key (denied e) = []
notices has_hooks key (kept b) = []
notices has_hooks key (fresh b) = if has_hooks then send_assign b (key ∷ []) ∷ [] else []

pub data Outcome : Type 0 where
  ends : Refusal → Outcome
  bridged : String → Outcome
  proxied : String → Backends.Outcome → Outcome

-- A WebSocket goes to the bridge, another request to `ProxyRequest`.
unfoldable pub send : Bool → Proxy → String → Clock → Answers → Proxy × Outcome
send true p b k a = (p, bridged b)
send false p b k a =
    let (backends, outcome) =
      Backends.proxy_request p.backends b k.sent k.ended (a.parses b) (a.reached b) in
    (record p { backends = backends }, proxied b outcome)

unfoldable pub forward : Bool → Clock → Answers → Proxy × Decision → Proxy × Outcome
unfolding send
forward ws k a (p, denied e) = (p, ends e)
forward ws k a (p, kept b) = send ws p b k a
forward ws k a (p, fresh b) = send ws p b k a

-- A request from the wait to its end.
unfoldable pub serve : Proxy → String → Bool → Clock → Answers → (Proxy × Outcome) × List Action
unfolding route forward notices
serve p key ws k a =
    let routed = route p key k a in (forward ws k a routed, notices p.has_hooks key routed.1)

-- `bindStickyKey`
unfoldable pub bind_sticky_key : Proxy → String → String → ℕ → Proxy × List Action
bind_sticky_key p key backend now =
    let hooked : List Action = if p.has_hooks then send_assign backend (key ∷ []) ∷ [] else [] in
    let entry : BulkAssignEntry = record { backend = backend; weight = pos 1 } in
    (
      record p { cache = UserCache.set p.cache key backend now },
      if p.by_table then bulk_assign ((key, entry) ∷ []) ∷ hooked else hooked,
    )

unfoldable pub bind_answer : String → String → ℕ → Proxy × Outcome → (Proxy × Outcome) × List Action
unfolding bind_sticky_key
bind_answer b sticky now (p, outcome) =
    if is_empty sticky
    then ((p, outcome), [])
    else (let (p', actions) = bind_sticky_key p sticky b now in ((p', outcome), actions))

-- The header `X-Sticky-Routing-Key` comes with the answer of a backend only.
unfoldable pub sticky_of : Outcome → String → String
sticky_of (proxied b Backends.served) sticky = sticky
sticky_of outcome sticky = ""

-- `servePublic`, given the remote address and the header that the backend sets ("" for none).
unfoldable pub serve_public :
    Proxy → String → String → Clock → Answers → Listing → (Proxy × Outcome) × List Action
unfolding send sticky_of bind_answer
serve_public p remote sticky k a failed = ((p, ends no_backend), [])
serve_public p remote sticky k a (listing []) = ((p, ends no_backend), [])
serve_public p remote sticky k a (listing (b ∷ bs)) =
    let backend = pick (hash_user remote) (sort (b ∷ bs)) in
    let done = send false p backend k a in
    bind_answer backend (sticky_of done.1 sticky) k.stored done
