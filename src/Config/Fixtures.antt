-- ===== src/Config/Fixtures.antt =====
-- Small environments, for the tests of the configuration and of what is made of it.
use sticky_proxy.Prelude.{String, true, false, none, some, [], ◌∷◌, str_dec, ite, get_or}
use sticky_proxy.Prelude.Int.{pos}
use sticky_proxy.Maps
use sticky_proxy.Maps.{Map}
use sticky_proxy.Config.{Config, Environment, seconds}

-- An environment with some variables, where numbers and durations are given as the word "one".
abbrev pub with_vars : Map String → Environment
with_vars vars = record {
  getenv = λ name. get_or "" (Maps.get name vars);
  atoi = λ s. ite (str_dec s "one") (some (pos 1)) none;
  parse_duration = λ s. ite (str_dec s "one") (some (seconds 1)) none;
}

abbrev pub small : Environment
small =
    with_vars (
      ("JWT_SECRET", "secret") ∷ ("PROXY_PORT", "9000") ∷ ("PUBLIC_PATHS", "/login, ,/oauth ") ∷ [])

abbrev pub loaded : Config
loaded = record {
  proxy_port = ":9000";
  redis_addr = "localhost:6379";
  jwt_secret = "secret";
  admin_token = "";
  cache_ttl = seconds 86400;
  redis_pool_size = pos 100;
  redis_min_idle_conns = pos 10;
  redis_cb_threshold = pos 5;
  redis_cb_cooldown = seconds 30;
  jwt_cache_max_size = pos 100000;
  eviction_threshold = pos 3;
  eviction_cooldown = seconds 60;
  backend_health_interval = seconds 10;
  log_format = "json";
  routing_claim = "sub";
  hooks_enabled = false;
  hooks_timeout = seconds 5;
  hooks_retries = pos 2;
  drain_timeout = seconds 60;
  drain_on_unhealthy = false;
  routing_mode = "hash";
  accounts_discovery = "";
  accounts_query = "";
  accounts_refresh_interval = seconds 30;
  postgres_dsn = "";
  rebalance_strategy = "none";
  rebalance_on_scale = false;
  backend_discovery = "";
  backend_discovery_host = "";
  backend_discovery_port = "5678";
  backend_discovery_interval = seconds 10;
  backend_discovery_namespace = "";
  backend_discovery_selector = "";
  backend_discovery_port_name = "";
  assignment_store = "memory";
  hold_during_transition = false;
  hold_timeout = seconds 5;
  ws_swap_on_rebalance = true;
  poison_pill_action = "";
  poison_pill_threshold = pos 3;
  poison_pill_window = seconds 300;
  public_paths = "/login" ∷ "/oauth" ∷ [];
  backend_max_conns_per_host = pos 500;
  backend_max_idle_conns_per_host = pos 0;
  backend_idle_conn_timeout = seconds 90;
}
