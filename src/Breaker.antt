-- ===== src/Breaker.antt =====
-- internal/proxy/redis.go: the circuit breaker around Redis. Moments are nanoseconds; each method
-- holds `cbMu`, so it is one step.
pub mod Meaning
mod Tests
use sticky_proxy.Prelude.{ℕ, ◌+◌, ◌≤◌, Bool, true, false, List, [], ◌∷◌, leb, if◌then◌else◌}

-- `cbState`
pub data State : Type 0 where
  closed open_circuit half_open : State

pub record Breaker : Type 0 where
  pub failures : ℕ
  pub state : State
  pub opened_at : ℕ
  pub threshold : ℕ
  pub cooldown : ℕ

unfoldable pub new : ℕ → ℕ → Breaker
new threshold cooldown = record {
  failures = 0;
  state = closed;
  opened_at = 0;
  threshold = threshold;
  cooldown = cooldown;
}

-- `time.Since(r.cbOpenedAt) >= r.cbCooldown`, with the opening moved to the other side
open_check : State → Breaker → ℕ → Breaker × Bool
open_check open_circuit b now =
    if leb (b.opened_at + b.cooldown) now
    then (record b { state = half_open }, false)
    else (b, true)
open_check half_open b now = (b, false)
open_check closed b now = (b, false)

unfoldable pub is_open : Breaker → ℕ → Breaker × Bool
unfolding open_check
is_open b now = open_check b.state b now

unfoldable pub record_failure : Breaker → ℕ → Breaker
record_failure b now =
    let counted = record b { failures = b.failures + 1 } in
    if leb b.threshold (b.failures + 1)
    then record counted { state = open_circuit; opened_at = now }
    else counted

close_state : State → State
close_state closed = closed
close_state open_circuit = closed
close_state half_open = closed

unfoldable pub record_success : Breaker → Breaker
unfolding close_state
record_success b = record b { failures = 0; state = close_state b.state }

pub data Call : Type 0 where
  asked failed succeeded : Call

unfoldable pub step : Breaker → ℕ × Call → Breaker
unfolding is_open record_failure record_success
step b (now, asked) = (is_open b now).0
step b (now, failed) = record_failure b now
step b (now, succeeded) = record_success b

unfoldable pub run : Breaker → List (ℕ × Call) → Breaker
run b [] = b
run b (c ∷ cs) = run (step b c) cs
