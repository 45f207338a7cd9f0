-- ===== src/Startup.antt =====
-- `New` of internal/proxy/proxy.go: which parts a configuration gives the proxy. Whether Redis, Postgres and
-- Kubernetes can be opened are arguments. `panics` is a nil dereference of the Redis client; a nil source or
-- strategy is `some none`. `prune_panics` is the panic of `time.NewTicker` in the goroutine that
-- `NewPoisonPillDetector` starts (`pruneLoop` of internal/proxy/poison.go), which ends the process while
-- `New` itself returns.
pub mod Whole
pub mod Window
mod Tests
use sticky_proxy.Prelude.{
  ℕ, zero, suc, String, Bool, true, false, Option, none, some, is_empty, if◌then◌else◌, not, ◌&&◌,
}
use sticky_proxy.Prelude.Int.{ℤ, pos, negsuc}
use sticky_proxy.Config.{Config, same}

pub data Store : Type 0 where
  memory redis_store postgres_store : Store

pub data Source : Type 0 where
  redis_source http_source postgres_source : Source

pub data Strategy : Type 0 where
  least_loaded consistent_hash : Strategy

pub data Discoverer : Type 0 where
  dns kubernetes : Discoverer

pub data Locker : Type 0 where
  redis_locker postgres_locker : Locker

pub record Parts : Type 0 where
  pub store : Store
  pub has_redis : Bool
  pub has_hooks : Bool
  pub has_notifier : Bool
  pub has_hold : Bool
  pub locker : Option Locker
  pub source : Option (Option Source)
  pub strategy : Option (Option Strategy)
  pub discoverer : Option Discoverer
  pub has_poison : Bool
  pub prune_panics : Bool

-- What can be opened: Redis, the store in Postgres, the accounts in Postgres, and Kubernetes.
pub record Opens : Type 0 where
  pub redis : Bool
  pub postgres : Bool
  pub accounts : Bool
  pub cluster : Bool

pub data Made (A : Type 0) : Type 0 where
  made : A → Made A
  fails panics : Made A

infixl 5 ◌>>=◌
unfoldable pub ◌>>=◌ : {A B : Type 0} → Made A → (A → Made B) → Made B
made a >>= f = f a
fails >>= f = fails
panics >>= f = panics

abbrev pub opened : {A : Type 0} → Bool → A → Made A
opened true a = made a
opened false a = fails

-- The store, and whether there is a Redis client.
unfoldable pub open_store : Config → Opens → Made (Store × Bool)
open_store c o =
    if same c.assignment_store "memory"
    then made (memory, false)
    else if same c.assignment_store "postgres"
    then opened o.postgres (postgres_store, false)
    else opened o.redis (redis_store, true)

abbrev pub notified : Store → Bool
notified memory = false
notified redis_store = true
notified postgres_store = true

unfoldable pub locker_of : Bool → Store → Option Locker
locker_of true store = some redis_locker
locker_of false memory = none
locker_of false redis_store = none
locker_of false postgres_store = some postgres_locker

-- `NewRedisAccountSource(r.client, ...)` dereferences the client.
unfoldable pub open_source : Config → Opens → Bool → Made (Option (Option Source))
open_source c o has_redis =
    if is_empty c.accounts_discovery
    then made none
    else if same c.accounts_discovery "redis"
    then if has_redis then made (some (some redis_source)) else panics
    else if same c.accounts_discovery "http"
    then made (some (some http_source))
    else if same c.accounts_discovery "postgres"
    then opened o.accounts (some (some postgres_source))
    else made (some none)

unfoldable pub strategy_of : Config → Option (Option Strategy)
strategy_of c =
    if same c.rebalance_strategy "none"
    then none
    else if same c.rebalance_strategy "least-loaded"
    then some (some least_loaded)
    else if same c.rebalance_strategy "consistent-hash"
    then some (some consistent_hash)
    else some none

unfoldable pub open_discoverer : Config → Opens → Made (Option Discoverer)
open_discoverer c o =
    if same c.backend_discovery "dns"
    then made (some dns)
    else if same c.backend_discovery "kubernetes"
    then opened o.cluster (some kubernetes)
    else made none

-- A duration that `time.NewTicker` accepts.
unfoldable pub positive : ℤ → Bool
positive (pos zero) = false
positive (pos (suc n)) = true
positive (negsuc n) = false

-- Whether there is a detector.
unfoldable pub open_poison : Config → Bool
open_poison c = same c.poison_pill_action "quarantine"

-- Whether the goroutine of the detector panics.
unfoldable pub prune_panics : Config → Bool
unfolding open_poison positive
prune_panics c = open_poison c && not (positive c.poison_pill_window)

unfoldable pub wire : Config → Opens → Made Parts
unfolding open_poison prune_panics
wire c o = do
  kept ← open_store c o
  source ← open_source c o kept.1
  discoverer ← open_discoverer c o
  made (record {
    store = kept.0;
    has_redis = kept.1;
    has_hooks = c.hooks_enabled;
    has_notifier = notified kept.0;
    has_hold = c.hold_during_transition;
    locker = locker_of kept.1 kept.0;
    source = source;
    strategy = strategy_of c;
    discoverer = discoverer;
    has_poison = open_poison c;
    prune_panics = prune_panics c;
  })
