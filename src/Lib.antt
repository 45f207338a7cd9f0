-- ===== src/Lib.antt =====
-- Sticky-proxy, a reverse proxy that routes the requests of each user to one backend: a model of its
-- decision-making code.
--
-- Parts of the program and the files that model them (paths are from the repository's root):
--   Poison      internal/proxy/poison.go, the detector that quarantines users who are reassigned
--               too often; its specification is in Poison/Refinement
--   Breaker     internal/proxy/redis.go, the circuit breaker around Redis (`isCBOpen`,
--               `recordCBFailure`, `recordCBSuccess`)
--   Backends    internal/proxy/backends.go, the circuit breaker of each backend and the path of a
--               request through it (`Available`, `recordFailure`, `ProxyRequest`)
--   UserCache   internal/proxy/user_cache.go, the local cache from routing keys to backends
--   Hold        internal/proxy/hold.go, requests that wait while their key is moved
--   Hashing     internal/proxy/hashing.go, `assignViaHash` of internal/proxy/proxy.go and
--               `hashFallback` of internal/proxy/redis.go
--   Assignment  internal/proxy/assignment.go
--   MemoryStore internal/proxy/store_memory.go, the store of hash mode
--   Health      internal/proxy/health_checker.go, the active health checks
--   Kubernetes  internal/proxy/discovery_kubernetes.go, backends from EndpointSlices
--   Routing     `AssignBackend` of internal/proxy/redis.go and `assignViaTable` of
--               internal/proxy/proxy.go: the breaker, the store and the hash fallback together
--   Rebalancer  internal/proxy/rebalancer.go, the strategies that compute moves (`ComputeMoves`)
--   Transition  `drain` of internal/proxy/drain.go and `rebalance` of internal/proxy/rebalancer.go
--   Accounts    internal/proxy/discovery.go, the discovery of accounts
--   Dns         internal/proxy/discovery_backends.go, backends from DNS
--   Jwt         internal/proxy/jwt.go and internal/proxy/jwt_cache.go
--   Conns       internal/proxy/conn_tracker.go, the WebSocket bridges of each key
--   Ownership   pkg/ownership/checker.go, a backend's check of the users that it owns
--   RateLimiter internal/proxy/rate_limiter.go, in units of 10 ^ -9 tokens
--   Drains      the drains that run, of internal/proxy/drain.go, the flag of `Trigger` of
--               internal/proxy/rebalancer.go, and internal/proxy/admin.go
--   Serve       internal/proxy/proxy.go: a request through the components
--   Config      internal/config/config.go: the configuration and its checks
--   Startup     `New` of internal/proxy/proxy.go: the parts that a configuration gives the proxy
--   Hooks       internal/proxy/hooks.go: the attempts of a notification
--   Bridge      internal/proxy/websocket.go: reading a message, and writing the queued ones
--   Table       internal/proxy/redis.go: the hashes of the assignments and of the weight on each backend
--   Lock        internal/proxy/transition.go over the locker of internal/proxy/redis.go
--   Notifier    internal/proxy/cache_notifier.go: invalidations from other replicas, collected for a window
-- Prelude holds the names that all of them use, Maps the finite maps.
--
-- How the code is modelled: a struct is a record, a method a function from the state to the new state
-- and the answer. A method that holds a mutex is one step, and an order of calls is a list of steps;
-- what a lock does not cover is not claimed. Time is a number of nanoseconds after Go's zero time and
-- an argument of the call that reads the clock. A Go map is an association list without a repeated
-- key; where the code ranges over one, its order is any order of the list, so a statement about all
-- lists is one about all orders. What a component asks of the store, of Redis or of the drain manager
-- is returned as a list of actions in the order of the calls. Go's `int` and `time.Duration` are not
-- bounded here: the counters count single events, and the configured durations are far from 2 ^ 63.
-- Where a width matters (the 32-bit hash) it is written out. Loops are structural recursion;
-- `strconv.Itoa` runs on fuel, with the number itself, which has no more digits than that, and the
-- batches of an ownership check with the number of users, since a batch has at least one of them.
--
-- A request is a step from its header to the wait and one from there to its end; requests of different
-- keys come one after the other. A write to Redis in a pipeline is executed or not as a whole. The loop
-- that reads a WebSocket message runs on fuel, for which the number of reads that the reader may take is
-- enough; the attempts of a notification run over their number.
--
-- Not modelled: network and database access, the SQL and Lua of the stores, goroutines as such, logging
-- and metrics, the select loop of a WebSocket bridge, publish and subscribe, the start
-- and stop of the background loops, and the debug and health handlers.
pub mod Accounts
pub mod Assignment
pub mod Backends
pub mod Breaker
pub mod Bridge
pub mod Config
pub mod Conns
pub mod Dns
pub mod Drains
pub mod Hashing
pub mod Health
pub mod Hold
pub mod Hooks
pub mod Jwt
pub mod Kubernetes
pub mod Lock
pub mod Maps
pub mod MemoryStore
pub mod Notifier
pub mod Ownership
pub mod Poison
pub mod Prelude
pub mod RateLimiter
pub mod Rebalancer
pub mod Routing
pub mod Serve
pub mod Startup
pub mod Table
pub mod Transition
pub mod UserCache
