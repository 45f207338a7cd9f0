-- ===== src/Config.antt =====
-- internal/config/config.go: the configuration and the readers of the environment. The environment,
-- `strconv.Atoi` and `time.ParseDuration` are arguments; an unset variable is "", as `os.Getenv` gives
-- it, and a duration is a number of nanoseconds.
pub mod Paths
pub mod Load
pub mod Checks
pub mod Consistent
pub mod Fixtures
mod Tests
use text.Mathlib.Text.{◌==◌ as str_eq}
use sticky_proxy.Prelude.{
  ℕ, ◌*◌, String, Bool, true, false, Option, none, some, List, [], is_empty, if◌then◌else◌,
}
use sticky_proxy.Prelude.Int.{ℤ, pos}

pub record Config : Type 0 where
  pub proxy_port : String
  pub redis_addr : String
  pub jwt_secret : String
  pub admin_token : String
  pub cache_ttl : ℤ
  pub redis_pool_size : ℤ
  pub redis_min_idle_conns : ℤ
  pub redis_cb_threshold : ℤ
  pub redis_cb_cooldown : ℤ
  pub jwt_cache_max_size : ℤ
  pub eviction_threshold : ℤ
  pub eviction_cooldown : ℤ
  pub backend_health_interval : ℤ
  pub log_format : String
  pub routing_claim : String
  pub hooks_enabled : Bool
  pub hooks_timeout : ℤ
  pub hooks_retries : ℤ
  pub drain_timeout : ℤ
  pub drain_on_unhealthy : Bool
  pub routing_mode : String
  pub accounts_discovery : String
  pub accounts_query : String
  pub accounts_refresh_interval : ℤ
  pub postgres_dsn : String
  pub rebalance_strategy : String
  pub rebalance_on_scale : Bool
  pub backend_discovery : String
  pub backend_discovery_host : String
  pub backend_discovery_port : String
  pub backend_discovery_interval : ℤ
  pub backend_discovery_namespace : String
  pub backend_discovery_selector : String
  pub backend_discovery_port_name : String
  pub assignment_store : String
  pub hold_during_transition : Bool
  pub hold_timeout : ℤ
  pub ws_swap_on_rebalance : Bool
  pub poison_pill_action : String
  pub poison_pill_threshold : ℤ
  pub poison_pill_window : ℤ
  pub public_paths : List String
  pub backend_max_conns_per_host : ℤ
  pub backend_max_idle_conns_per_host : ℤ
  pub backend_idle_conn_timeout : ℤ

-- The error names the variable that is missing or invalid, or that does not fit the others.
pub data Error : Type 0 where
  missing invalid unfit : String → Error

pub data Result {ℓ} (A : Type ℓ) : Type ℓ where
  ok : A → Result A
  err : Error → Result A

infixl 5 ◌>>=◌ ◌>>◌
unfoldable pub ◌>>=◌ {ℓ κ} : {A : Type ℓ} {B : Type κ} → Result A → (A → Result B) → Result B
ok a >>= f = f a
err e >>= f = err e

unfoldable pub ◌>>◌ {ℓ} : {B : Type ℓ} → Result (Unit {0}) → Result B → Result B
unfolding ◌>>=◌
m >> k = m >>= λ _. k

-- Go's `==` on strings.
abbrev pub same : String → String → Bool
same s t = str_eq s t

-- `if cond { return nil, err }`
unfoldable pub refuse_if : Bool → Error → Result (Unit {0})
refuse_if true e = err e
refuse_if false e = ok tt

abbrev pub seconds : ℕ → ℤ
seconds n = pos (n * 1000000000)

-- Where the process reads its settings.
pub record Environment : Type 0 where
  pub getenv : String → String
  pub atoi : String → Option ℤ
  pub parse_duration : String → Option ℤ

unfoldable pub env_or_default : Environment → String → String → String
env_or_default e name fallback = if is_empty (e.getenv name) then fallback else e.getenv name

unfoldable pub parsed : String → Option ℤ → Result ℤ
parsed name none = err (invalid name)
parsed name (some n) = ok n

unfoldable pub parse_int : Environment → String → ℤ → Result ℤ
unfolding parsed
parse_int e name fallback =
    if is_empty (e.getenv name) then ok fallback else parsed name (e.atoi (e.getenv name))

unfoldable pub parse_time : Environment → String → ℤ → Result ℤ
unfolding parsed
parse_time e name fallback =
    if is_empty (e.getenv name) then ok fallback else parsed name (e.parse_duration (e.getenv name))
