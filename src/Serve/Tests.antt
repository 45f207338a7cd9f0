-- ===== src/Serve/Tests.antt =====
-- Requests through a proxy with one or two backends.
use Prim.Native.String.{◌++◌ as concat}
use text.Mathlib.TextEquality.{eq_iff}
use sticky_proxy.Prelude.{
  ℕ, ◌≤◌, ◌≡◌, ◌≢◌, refl, String, true, false, none, some, List, [], ◌∷◌, str_dec, is_empty,
  has_prefix, trim_prefix, All, arith,
}
use sticky_proxy.Maps
use sticky_proxy.Drains
use sticky_proxy.Routing
use sticky_proxy.Poison.{Detector}
use sticky_proxy.UserCache
use sticky_proxy.RateLimiter
use sticky_proxy.Jwt
use sticky_proxy.Jwt.Trust.{Parser, Accepted, IsTrusted}
use sticky_proxy.Backends
use sticky_proxy.Hashing.{listing, assign_via_hash, pick, hash_user}
use sticky_proxy.Prelude.Sort.{sort}
use sticky_proxy.Serve.{
  Proxy, Clock, Answers, fresh, route, serve, admit, admitted, check_quarantine, quarantined,
  refused, serve_public, proxied, is_draining, is_public_path, check_cached, miss, assign,
  cache_assigned, forward, send, bind_answer, bind_sticky_key, sticky_of, check_limit,
}
use sticky_proxy.Serve.Sticky.{Visit, Event, visits, logs_in, Fits, GoTo, serve-GoTo}
use sticky_proxy.Serve.Draining.{Falls, visit_all, drain-quarantines}
use sticky_proxy.Serve.Public.{serve_public-GoTo}
use sticky_proxy.Serve.Trusted.{admit-admitted, is_out}

abbrev at : ℕ → Clock
at t = record {
  looked_up = t;
  checked = t;
  recorded = t;
  asked = t;
  failed_at = t;
  stored = t;
  sent = t;
  ended = t;
}

-- The only active backend, which answers.
abbrev one : Answers
one = record {
  actives = listing ("http://a" ∷ []);
  assigned = Routing.failing;
  parses = λ b. true;
  reached = λ b. true;
}

abbrev start : Proxy
start = record {
  redis = none;
  cache = record { ttl = 1000; entries = [] };
  backends = record { failures = []; proxies = []; eviction_threshold = 3; eviction_cooldown = 60 };
  jwt_cache = record { max_size = 10; data_of = [] };
  limiter = record { rate = 100; burst = 200; limiters = [] };
  drain = none;
  poison = none;
  by_table = false;
  has_hooks = true;
  public_paths = "/login" ∷ [];
}

public_paths :
    (is_public_path ("/login" ∷ []) "/login/now" ≡ true)
    × (is_public_path ("/login" ∷ []) "/log" ≡ false)
unfolding is_public_path has_prefix trim_prefix
public_paths = (refl, refl)

-- Requests of alice, and a login of bob.
abbrev events : List Event
events =
    visits (record { key = "alice"; websocket = false; clock = at 20; answers = one })
    ∷ logs_in (record {
      remote = "10.0.0.2:80";
      sticky = "bob";
      clock = at 25;
      answers = one;
      actives = listing ("http://a" ∷ []);
    })
    ∷ visits (record { key = "bob"; websocket = true; clock = at 30; answers = one })
    ∷ visits (record { key = "alice"; websocket = true; clock = at 40; answers = one })
    ∷ []

fit : (exp : ℕ) → 40 ≤ exp → All (Fits "alice" "http://a" exp) events
fit exp le = (
  (omega arith, refl, refl),
  ((other, refl), ((omega arith, refl, refl), ((omega arith, refl, refl), tt))),
)
  where
    other : ◌≢◌ {A = String} "bob" "alice"
    other e = absurd (ground (arith, eq_iff "bob" "alice"))

alice_is_assigned : (route start "alice" (at 10) one).1 ≡ fresh "http://a"
unfolding route UserCache.get check_cached miss assign cache_assigned assign_via_hash sort Maps.get
alice_is_assigned = refl

alice_is_served :
    let q = (serve start "alice" false (at 10) one).0.0 in
    (Maps.get "http://a" q.backends.failures ≡ none)
    × (is_draining q.drain "http://a" ≡ false)
    × (q.cache.ttl ≡ 1000)
unfolding serve forward send route UserCache.get check_cached miss assign cache_assigned
    assign_via_hash sort Backends.proxy_request Backends.available Backends.get_or_create_proxy
    Backends.serve Maps.get Maps.has is_draining UserCache.set
alice_is_served = (refl, refl, refl)

serve-GoTo_example : GoTo (serve start "alice" false (at 10) one).0.0 "alice" "http://a" events
serve-GoTo_example =
    serve-GoTo start "alice" false (at 10) one "http://a" events alice_is_assigned alice_is_served.0
      alice_is_served.1 (fit _ (omega (arith, alice_is_served.2)))

-- The same proxy while its backend drains, with a detector for two reassignments.
abbrev watcher : Detector
watcher = record {
  events = [];
  quarantine = [];
  threshold = 2;
  window = 100;
  quarantined_accounts = 0;
  detections = 0;
}

abbrev draining : Proxy
draining = record start {
  cache = record {
    ttl = 1000;
    entries = ("alice", record { backend = "http://a"; exp = 1000 }) ∷ [];
  };
  drain = some (record { draining = ("http://a", false) ∷ []; started = 1 });
  poison = some watcher;
}

abbrev requests : List Visit
requests =
    record { key = "alice"; websocket = false; clock = at 20; answers = one }
    ∷ record { key = "alice"; websocket = true; clock = at 40; answers = one }
    ∷ []

picked : assign_via_hash one.actives "alice" ≡ some "http://a"
unfolding assign_via_hash sort
picked = refl

falls : All (Falls 10 50 1000 100 "alice" "http://a") requests
falls = (
  record {
    own = refl;
    live = omega arith;
    from = omega arith;
    within = omega arith;
    stays = omega arith;
    picked = picked;
  },
  (
    record {
      own = refl;
      live = omega arith;
      from = omega arith;
      within = omega arith;
      stays = omega arith;
      picked = picked;
    },
    tt,
  ),
)

drains : is_draining draining.drain "http://a" ≡ true
unfolding is_draining Drains.is_draining Maps.has Maps.get str_dec
drains = refl

cached :
    Maps.get "alice" draining.cache.entries ≡ some (record { backend = "http://a"; exp = 1000 })
unfolding Maps.get str_dec
cached = refl

watched : (Maps.has "alice" watcher.quarantine ≡ false) × (Maps.get "alice" watcher.events ≡ none)
unfolding Maps.has Maps.get
watched = (refl, refl)

drain-quarantines_example :
    check_quarantine (visit_all draining requests).poison "alice" ≡ refused quarantined
drain-quarantines_example =
    drain-quarantines draining watcher "alice" "http://a" 10 50 1000 requests refl refl watched.0
      watched.1 drains cached (omega arith) falls refl (omega arith)

-- A login that the backend answers with the key of alice.
login :
    let r =
      (serve_public start "10.0.0.1:5000" "alice" (at 10) one (listing ("http://a" ∷ []))).0 in
    (r.1 ≡ proxied "http://a" Backends.served)
    × (is_draining r.0.drain "http://a" ≡ false)
    × (r.0.cache.ttl ≡ 1000)
unfolding serve_public send sticky_of bind_answer bind_sticky_key is_empty sort pick
    Backends.proxy_request Backends.available Backends.get_or_create_proxy Backends.serve Maps.get
    Maps.has is_draining UserCache.set hash_user
login = (refl, refl, refl)

named : is_empty "alice" ≡ false
unfolding is_empty
named = refl

serve_public-GoTo_example :
    GoTo
      (serve_public start "10.0.0.1:5000" "alice" (at 10) one (listing ("http://a" ∷ []))).0.0
      "alice"
      "http://a"
      events
serve_public-GoTo_example =
    serve_public-GoTo start "10.0.0.1:5000" "alice" "http://a" (at 10) one
      (listing ("http://a" ∷ [])) events named login.0 login.1 (fit _ (omega (arith, login.2)))

abbrev parser : Parser
parser now token = some (some token, 2000000000)

nothing_cached : IsTrusted parser start.jwt_cache
unfolding Maps.get
nothing_cached token jwt h = absurd (ground arith)

admit-admitted_example :
    IsTrusted parser (admit (parser 5) start "Bearer alice" 5 6).0.jwt_cache
    × ((admit (parser 5) start "Bearer alice" 5 6).1 ≡ admitted "alice"
        → (token : String) × (jwt : Jwt.Cached) × ("Bearer alice" ≡ concat "Bearer " token)
          × Accepted parser token jwt
          × (jwt.routing_key ≡ "alice")
          × ((RateLimiter.allow start.limiter "alice" 6).1 ≡ true)
          × (is_out start.poison "alice" ≡ false))
admit-admitted_example = admit-admitted parser start "Bearer alice" "alice" 5 6 nothing_cached

alice_is_admitted : (admit (parser 5) start "Bearer alice" 5 6).1 ≡ admitted "alice"
unfolding admit check_limit Jwt.extract Jwt.bearer_token Jwt.before_space Jwt.after_space
    Jwt.extract_bearer Jwt.get Jwt.checked_entry Jwt.extract_token Jwt.claims_of Jwt.store_found
    Maps.get str_dec is_empty RateLimiter.allow check_quarantine
alice_is_admitted = refl
