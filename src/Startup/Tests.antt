-- ===== src/Startup/Tests.antt =====
-- The parts of small configurations.
use sticky_proxy.Prelude.{
  ◌≡◌, ◌≢◌, refl, true, false, none, some, [], ◌∷◌, str_dec, ite, is_empty, arith,
}
use text.Mathlib.TextEquality.{eq_iff}
use sticky_proxy.Prelude.Int.{pos}
use sticky_proxy.Maps
use sticky_proxy.Config
use sticky_proxy.Config.{
  Config, Environment, ok, refuse_if, env_or_default, parse_int, parse_time, parsed, seconds,
}
use sticky_proxy.Config.Load.{
  load, load_redis, load_backends, load_modes, load_discovery, choose_store, check_fields,
  load_limits, load_rest, with_colon,
}
use sticky_proxy.Config.Fixtures.{with_vars, loaded}
use sticky_proxy.Startup.{
  Opens, Parts, made, panics, ◌>>=◌, wire, open_store, open_source, open_discoverer, open_poison,
  prune_panics, strategy_of, locker_of, positive, memory, redis_store, redis_locker, redis_source,
  least_loaded,
}
use sticky_proxy.Startup.Whole.{IsWhole, Ticks, wire-IsWhole}
use sticky_proxy.Startup.Window.{wire-prune_panics}

abbrev table : Environment
table = with_vars (
    ("JWT_SECRET", "secret")
    ∷ ("PROXY_PORT", "9000")
    ∷ ("ROUTING_MODE", "assignment")
    ∷ ("ACCOUNTS_DISCOVERY", "redis")
    ∷ ("REBALANCE_STRATEGY", "least-loaded")
    ∷ [])

abbrev by_table : Config
by_table = record loaded {
  routing_mode = "assignment";
  accounts_discovery = "redis";
  rebalance_strategy = "least-loaded";
  assignment_store = "redis";
  public_paths = [];
}

abbrev open_all : Opens
open_all = record { redis = true; postgres = true; accounts = true; cluster = true }

table_loads : load table ≡ ok by_table
unfolding load load_redis load_backends load_modes load_discovery choose_store check_fields
    load_limits load_rest with_colon Config.◌>>=◌ Config.◌>>◌ refuse_if env_or_default parse_int
    parse_time parsed is_empty Maps.get str_dec
table_loads = refl

no_window : Ticks by_table
no_window e = absurd (ground (arith, eq_iff "" "quarantine"))

wire-IsWhole_example :
    (wire by_table open_all ≢ panics)
    × ((p : Parts) → wire by_table open_all ≡ made p → IsWhole by_table p)
wire-IsWhole_example = wire-IsWhole table by_table open_all table_loads no_window

abbrev table_parts : Parts
table_parts = record {
  store = redis_store;
  has_redis = true;
  has_hooks = false;
  has_notifier = true;
  has_hold = false;
  locker = some redis_locker;
  source = some (some redis_source);
  strategy = some (some least_loaded);
  discoverer = none;
  has_poison = false;
  prune_panics = false;
}

table_is_wired : wire by_table open_all ≡ made table_parts
unfolding wire ◌>>=◌ open_store open_source open_discoverer open_poison prune_panics strategy_of
    locker_of is_empty
table_is_wired = refl

-- A detector with a window of no length.
abbrev no_time : Environment
no_time =
    record (with_vars (
      ("JWT_SECRET", "secret")
      ∷ ("PROXY_PORT", "9000")
      ∷ ("POISON_PILL_ACTION", "quarantine")
      ∷ ("POISON_PILL_WINDOW", "0s")
      ∷ [])) { parse_duration = λ s. ite (str_dec s "0s") (some (pos 0)) none }

abbrev frozen : Config
frozen = record loaded {
  poison_pill_action = "quarantine";
  poison_pill_window = pos 0;
  public_paths = [];
}

no_time_loads : load no_time ≡ ok frozen
unfolding load load_redis load_backends load_modes load_discovery choose_store check_fields
    load_limits load_rest with_colon Config.◌>>=◌ Config.◌>>◌ refuse_if env_or_default parse_int
    parse_time parsed is_empty Maps.get str_dec
no_time_loads = refl

zero_window :
    (no_time.getenv "POISON_PILL_ACTION" ≡ "quarantine")
    × (is_empty (no_time.getenv "POISON_PILL_WINDOW") ≡ false)
    × (no_time.parse_duration (no_time.getenv "POISON_PILL_WINDOW") ≡ some (pos 0))
    × (positive (pos 0) ≡ false)
unfolding Maps.get str_dec is_empty positive
zero_window = (refl, refl, refl, refl)

abbrev frozen_parts : Parts
frozen_parts = record {
  store = memory;
  has_redis = false;
  has_hooks = false;
  has_notifier = false;
  has_hold = false;
  locker = none;
  source = none;
  strategy = none;
  discoverer = none;
  has_poison = true;
  prune_panics = true;
}

frozen_is_wired : wire frozen open_all ≡ made frozen_parts
unfolding wire ◌>>=◌ open_store open_source open_discoverer open_poison prune_panics positive
    strategy_of locker_of is_empty
frozen_is_wired = refl

wire-prune_panics_example : (frozen_parts.has_poison ≡ true) × (frozen_parts.prune_panics ≡ true)
wire-prune_panics_example =
    wire-prune_panics no_time frozen open_all (pos 0) frozen_parts no_time_loads zero_window.0
      zero_window.1 zero_window.2 zero_window.3 frozen_is_wired
