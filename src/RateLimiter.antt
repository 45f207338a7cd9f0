-- ===== src/RateLimiter.antt =====
-- internal/proxy/rate_limiter.go: the token bucket of each user. The code counts tokens in floating
-- point; here they are counted exactly, in units of 10 ^ -9 tokens, so that a rate of one token per
-- second is one unit per nanosecond. The rate is a natural number (the program's is 100). A call reads
-- the clock and then takes the bucket's lock; calls are in the order of their moments.
pub mod Bound
pub mod Level
mod Tests
use sticky_proxy.Prelude.{
  ℕ, zero, suc, ◌+◌, ◌-◌, ◌*◌, String, Bool, true, false, Option, none, some, List, [], ◌∷◌, ltb,
  leb, if◌then◌else◌, str_dec, ite, get_or,
}
use sticky_proxy.Maps
use sticky_proxy.Maps.{Map}

-- `userLimiter`
pub record UserLimiter : Type 0 where
  pub tokens : ℕ
  pub last_refill : ℕ

pub record RateLimiter : Type 0 where
  pub rate : ℕ
  pub burst : ℕ
  pub limiters : Map UserLimiter

unfoldable pub new : ℕ → ℕ → RateLimiter
new rate burst = record { rate = rate; burst = burst; limiters = [] }

-- One token, in units.
abbrev pub token : ℕ
token = 1000000000

-- The capacity of a bucket, in units.
abbrev pub capacity : RateLimiter → ℕ
capacity rl = rl.burst * token

-- `elapsed * rl.rate`
unfoldable pub gain : RateLimiter → ℕ → ℕ → ℕ
gain rl since now = (now - since) * rl.rate

-- The tokens after the refill.
unfoldable pub refill : RateLimiter → UserLimiter → ℕ → ℕ
unfolding gain
refill rl ul now =
    let tokens = ul.tokens + gain rl ul.last_refill now in
    if ltb (capacity rl) tokens then capacity rl else tokens

unfoldable pub allow : RateLimiter → String → ℕ → RateLimiter × Bool
unfolding refill
allow rl user now =
    let fresh : UserLimiter = record { tokens = capacity rl; last_refill = now } in
    let tokens = refill rl (get_or fresh (Maps.get user rl.limiters)) now in
    let enough = leb token tokens in
    (
      record rl {
        limiters =
            Maps.put user
              (record { tokens = if enough then tokens - token else tokens; last_refill = now })
              rl.limiters;
      },
      enough,
    )

-- `staleThreshold`, five minutes
abbrev pub stale_threshold : ℕ
stale_threshold = 300 * token

-- the pass of `cleanup`
unfoldable pub drop_idle : ℕ → Map UserLimiter → Map UserLimiter
drop_idle now [] = []
drop_idle now ((user, ul) ∷ m) =
    let rest = drop_idle now m in
    if ltb stale_threshold (now - ul.last_refill) then rest else (user, ul) ∷ rest

unfoldable pub cleanup : RateLimiter → ℕ → RateLimiter
unfolding drop_idle
cleanup rl now = record rl { limiters = drop_idle now rl.limiters }

pub data Call : Type 0 where
  asks : String → Call
  cleans : Call

-- The state after a call, and whether it let a request of the user through.
unfoldable pub step : RateLimiter → String → ℕ → Call → RateLimiter × ℕ
unfolding allow cleanup
step rl user now (asks other) =
    let r = allow rl other now in (r.0, if r.1 then ite (str_dec other user) 1 0 else 0)
step rl user now cleans = (cleanup rl now, 0)

-- The state after the calls, and the number of the user's requests that were let through.
unfoldable pub run : RateLimiter → String → List (ℕ × Call) → RateLimiter × ℕ
unfolding step
run rl user [] = (rl, 0)
run rl user ((now, c) ∷ cs) =
    let here = step rl user now c in let rest = run here.0 user cs in (rest.0, here.1 + rest.1)
