-- ===== src/Config/Load.antt =====
-- `Load` of internal/config/config.go, in the order of the source. Each step fills some fields or
-- refuses; where the source stops with the first error, so does the chain of steps.
use Prim.Native.String.{◌++◌ as concat}
use Prim.Native.Char.{code}
use sticky_proxy.Prelude.{String, Bool, false, not, ◌&&◌, ◌||◌, [], is_empty, if◌then◌else◌, ◌==◌}
use sticky_proxy.Prelude.Int.{pos}
use sticky_proxy.Config.Paths.{keep_paths, split_commas}
use sticky_proxy.Config.{
  Config, missing, invalid, unfit, Result, ok, ◌>>=◌, ◌>>◌, same, refuse_if, seconds, Environment,
  env_or_default, parse_int, parse_time,
}

-- `&Config{}`
abbrev zero_config : Config
zero_config = record {
  proxy_port = "";
  redis_addr = "";
  jwt_secret = "";
  admin_token = "";
  cache_ttl = pos 0;
  redis_pool_size = pos 0;
  redis_min_idle_conns = pos 0;
  redis_cb_threshold = pos 0;
  redis_cb_cooldown = pos 0;
  jwt_cache_max_size = pos 0;
  eviction_threshold = pos 0;
  eviction_cooldown = pos 0;
  backend_health_interval = pos 0;
  log_format = "";
  routing_claim = "";
  hooks_enabled = false;
  hooks_timeout = pos 0;
  hooks_retries = pos 0;
  drain_timeout = pos 0;
  drain_on_unhealthy = false;
  routing_mode = "";
  accounts_discovery = "";
  accounts_query = "";
  accounts_refresh_interval = pos 0;
  postgres_dsn = "";
  rebalance_strategy = "";
  rebalance_on_scale = false;
  backend_discovery = "";
  backend_discovery_host = "";
  backend_discovery_port = "";
  backend_discovery_interval = pos 0;
  backend_discovery_namespace = "";
  backend_discovery_selector = "";
  backend_discovery_port_name = "";
  assignment_store = "";
  hold_during_transition = false;
  hold_timeout = pos 0;
  ws_swap_on_rebalance = false;
  poison_pill_action = "";
  poison_pill_threshold = pos 0;
  poison_pill_window = pos 0;
  public_paths = [];
  backend_max_conns_per_host = pos 0;
  backend_max_idle_conns_per_host = pos 0;
  backend_idle_conn_timeout = pos 0;
}

-- `cfg.ProxyPort != "" && cfg.ProxyPort[0] != ':'`
unfoldable pub with_colon : String → String
with_colon String.[] = ""
with_colon (String.◌∷◌ c s) = if code c == 58 then String.◌∷◌ c s else concat ":" (String.◌∷◌ c s)

unfoldable pub load_redis : Environment → Config → Result Config
load_redis e cfg = do
  refuse_if (is_empty (e.getenv "JWT_SECRET")) (missing "JWT_SECRET")
  cache_ttl ← parse_time e "CACHE_TTL" (seconds 86400)
  pool ← parse_int e "REDIS_POOL_SIZE" (pos 100)
  idle ← parse_int e "REDIS_MIN_IDLE_CONNS" (pos 10)
  threshold ← parse_int e "REDIS_CB_THRESHOLD" (pos 5)
  cooldown ← parse_time e "REDIS_CB_COOLDOWN" (seconds 30)
  ok (record cfg {
    proxy_port = with_colon (env_or_default e "PROXY_PORT" ":8080");
    redis_addr = env_or_default e "REDIS_ADDR" "localhost:6379";
    jwt_secret = e.getenv "JWT_SECRET";
    cache_ttl = cache_ttl;
    redis_pool_size = pool;
    redis_min_idle_conns = idle;
    redis_cb_threshold = threshold;
    redis_cb_cooldown = cooldown;
  })

unfoldable pub load_backends : Environment → Config → Result Config
load_backends e cfg = do
  jwt_cache ← parse_int e "JWT_CACHE_MAX_SIZE" (pos 100000)
  threshold ← parse_int e "EVICTION_THRESHOLD" (pos 3)
  cooldown ← parse_time e "EVICTION_COOLDOWN" (seconds 60)
  health ← parse_time e "BACKEND_HEALTH_INTERVAL" (seconds 10)
  timeout ← parse_time e "HOOKS_TIMEOUT" (seconds 5)
  retries ← parse_int e "HOOKS_RETRIES" (pos 2)
  drain ← parse_time e "DRAIN_TIMEOUT" (seconds 60)
  ok (record cfg {
    jwt_cache_max_size = jwt_cache;
    eviction_threshold = threshold;
    eviction_cooldown = cooldown;
    backend_health_interval = health;
    routing_claim = env_or_default e "ROUTING_CLAIM" "sub";
    hooks_enabled = same (e.getenv "HOOKS_ENABLED") "true";
    hooks_timeout = timeout;
    hooks_retries = retries;
    drain_timeout = drain;
    drain_on_unhealthy = same (e.getenv "DRAIN_ON_UNHEALTHY") "true";
  })

-- The values that a setting may have, or "".
abbrev pub is_mode : String → Bool
is_mode s = same s "hash" || same s "assignment"

abbrev pub is_source : String → Bool
is_source s = is_empty s || (same s "redis" || (same s "http" || same s "postgres"))

abbrev pub is_strategy : String → Bool
is_strategy s = same s "none" || (same s "least-loaded" || same s "consistent-hash")

abbrev pub is_discovery : String → Bool
is_discovery s = is_empty s || (same s "dns" || same s "kubernetes")

abbrev pub is_store : String → Bool
is_store s = same s "memory" || (same s "redis" || same s "postgres")

unfoldable pub load_modes : Environment → Config → Result Config
load_modes e cfg = do
  let mode = env_or_default e "ROUTING_MODE" "hash"
  refuse_if (not (is_mode mode)) (invalid "ROUTING_MODE")
  let accounts = e.getenv "ACCOUNTS_DISCOVERY"
  refuse_if (not (is_source accounts)) (invalid "ACCOUNTS_DISCOVERY")
  interval ← parse_time e "ACCOUNTS_REFRESH_INTERVAL" (seconds 30)
  let strategy = env_or_default e "REBALANCE_STRATEGY" "none"
  refuse_if (not (is_strategy strategy)) (invalid "REBALANCE_STRATEGY")
  ok (record cfg {
    routing_mode = mode;
    accounts_discovery = accounts;
    accounts_query = e.getenv "ACCOUNTS_QUERY";
    postgres_dsn = e.getenv "POSTGRES_DSN";
    accounts_refresh_interval = interval;
    rebalance_strategy = strategy;
    rebalance_on_scale = same (e.getenv "REBALANCE_ON_SCALE") "true";
  })

unfoldable pub load_discovery : Environment → Config → Result Config
load_discovery e cfg = do
  let discovery = e.getenv "BACKEND_DISCOVERY"
  refuse_if (not (is_discovery discovery)) (invalid "BACKEND_DISCOVERY")
  interval ← parse_time e "BACKEND_DISCOVERY_INTERVAL" (seconds 10)
  ok (record cfg {
    backend_discovery = discovery;
    backend_discovery_host = e.getenv "BACKEND_DISCOVERY_HOST";
    backend_discovery_port = env_or_default e "BACKEND_DISCOVERY_PORT" "5678";
    backend_discovery_interval = interval;
    backend_discovery_namespace = e.getenv "BACKEND_DISCOVERY_NAMESPACE";
    backend_discovery_selector = e.getenv "BACKEND_DISCOVERY_SELECTOR";
    backend_discovery_port_name = e.getenv "BACKEND_DISCOVERY_PORT_NAME";
  })

-- The default of `ASSIGNMENT_STORE`.
abbrev pub default_store : Config → String
default_store cfg =
    if same cfg.accounts_discovery "postgres"
    then "postgres"
    else if same cfg.routing_mode "hash"
    then "memory"
    else "redis"

unfoldable pub choose_store : Environment → Config → Result Config
choose_store e cfg = do
  let given = e.getenv "ASSIGNMENT_STORE"
  let store = if is_empty given then default_store cfg else given
  refuse_if (not (is_store store)) (invalid "ASSIGNMENT_STORE")
  ok (record cfg { assignment_store = store })

-- The cross-field validation.
unfoldable pub check_fields : Config → Result Config
check_fields cfg = do
  let by_table = same cfg.routing_mode "assignment"
  let accounts = cfg.accounts_discovery
  let store = cfg.assignment_store
  refuse_if (not (is_empty accounts) && not by_table) (unfit "ACCOUNTS_DISCOVERY")
  refuse_if (same accounts "postgres" && is_empty cfg.postgres_dsn) (unfit "ACCOUNTS_DISCOVERY")
  refuse_if (same cfg.backend_discovery "dns" && is_empty cfg.backend_discovery_host)
      (unfit "BACKEND_DISCOVERY")
  refuse_if (same cfg.backend_discovery "kubernetes" && is_empty cfg.backend_discovery_selector)
      (unfit "BACKEND_DISCOVERY")
  refuse_if (not (same cfg.rebalance_strategy "none") && not by_table) (unfit "REBALANCE_STRATEGY")
  refuse_if (same store "memory" && not (same cfg.routing_mode "hash")) (unfit "ASSIGNMENT_STORE")
  refuse_if (same store "postgres" && not by_table) (unfit "ASSIGNMENT_STORE")
  refuse_if (same store "postgres" && is_empty cfg.postgres_dsn) (unfit "ASSIGNMENT_STORE")
  refuse_if (same accounts "redis" && not (same store "redis")) (unfit "ACCOUNTS_DISCOVERY")
  ok cfg

unfoldable pub load_limits : Environment → Config → Result Config
load_limits e cfg = do
  hold ← parse_time e "HOLD_TIMEOUT" (seconds 5)
  let action = e.getenv "POISON_PILL_ACTION"
  refuse_if (not (is_empty action || same action "quarantine")) (invalid "POISON_PILL_ACTION")
  threshold ← parse_int e "POISON_PILL_THRESHOLD" (pos 3)
  window ← parse_time e "POISON_PILL_WINDOW" (seconds 300)
  conns ← parse_int e "BACKEND_MAX_CONNS_PER_HOST" (pos 500)
  idle ← parse_int e "BACKEND_MAX_IDLE_CONNS_PER_HOST" (pos 0)
  timeout ← parse_time e "BACKEND_IDLE_CONN_TIMEOUT" (seconds 90)
  ok (record cfg {
    ws_swap_on_rebalance = not (same (e.getenv "WS_SWAP_ON_REBALANCE") "false");
    hold_during_transition = same (e.getenv "HOLD_DURING_TRANSITION") "true";
    hold_timeout = hold;
    poison_pill_action = action;
    poison_pill_threshold = threshold;
    poison_pill_window = window;
    backend_max_conns_per_host = conns;
    backend_max_idle_conns_per_host = idle;
    backend_idle_conn_timeout = timeout;
  })

unfoldable pub load_rest : Environment → Config → Result Config
load_rest e cfg = do
  let paths = e.getenv "PUBLIC_PATHS"
  let format = env_or_default e "LOG_FORMAT" "json"
  refuse_if (not (same format "json" || same format "text")) (invalid "LOG_FORMAT")
  ok (record cfg {
    public_paths = if is_empty paths then [] else keep_paths (split_commas paths);
    admin_token = e.getenv "ADMIN_TOKEN";
    log_format = format;
  })

unfoldable pub load : Environment → Result Config
load e = do
  read ← load_redis e zero_config
  backed ← load_backends e read
  moded ← load_modes e backed
  found ← load_discovery e moded
  stored ← choose_store e found
  checked ← check_fields stored
  limited ← load_limits e checked
  load_rest e limited
