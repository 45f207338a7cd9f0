-- ===== src/Hooks.antt =====
-- internal/proxy/hooks.go: the notifications of backends. How each attempt ends is a function of its
-- number and an argument; the JSON of the users is Go's library and always succeeds on texts.
pub mod Attempts
mod Tests
use sticky_proxy.Prelude.{
  ℕ, zero, suc, ◌+◌, String, Bool, true, false, ◌&&◌, Option, none, some, leb, ltb, if◌then◌else◌,
}
use sticky_proxy.Prelude.Int.{ℤ, pos, negsuc}

-- How an attempt ends: the context has ended before it, the request cannot be made, there is no answer, or
-- an answer with a status.
pub data Attempt : Type 0 where
  cancelled unmakeable unanswered : Attempt
  answered : ℕ → Attempt

pub data Error : Type 0 where
  context_ended bad_request transport : Error
  bad_status : ℕ → Error

-- `resp.StatusCode >= 200 && resp.StatusCode < 300`
unfoldable pub is_success : ℕ → Bool
is_success status = leb 200 status && ltb status 300

-- `lastErr` after an attempt
unfoldable pub error_of : Attempt → Error
error_of cancelled = context_ended
error_of unmakeable = bad_request
error_of unanswered = transport
error_of (answered s) = bad_status s

-- The answer to an attempt, given that of the rest of the loop; with it, the number of requests sent.
unfoldable pub conclude : Attempt → Option Error × ℕ → Option Error × ℕ
unfolding is_success
conclude cancelled rest = (some context_ended, 0)
conclude unmakeable rest = (some bad_request, 0)
conclude unanswered rest = (rest.0, suc rest.1)
conclude (answered s) rest = if is_success s then (none, 1) else (rest.0, suc rest.1)

-- The loop, with the number of attempts left, the number of this one and `lastErr`.
unfoldable pub send_loop : (ℕ → Attempt) → ℕ → ℕ → Option Error → Option Error × ℕ
unfolding conclude error_of
send_loop attempt zero i last = (last, 0)
send_loop attempt (suc left) i last =
    let rest = send_loop attempt left (suc i) (some (error_of (attempt i))) in
    conclude (attempt i) rest

-- `attempt <= h.retries` holds of this many numbers from 0.
unfoldable pub attempts : ℤ → ℕ
attempts (pos n) = suc n
attempts (negsuc n) = 0

unfoldable pub send : ℤ → (ℕ → Attempt) → Option Error × ℕ
unfolding send_loop attempts
send retries attempt = send_loop attempt (attempts retries) 0 none

-- What `SendAssign` and `SendUnassign` count: a hook sent, or a failure.
pub data Counted : Type 0 where
  sent failure : Counted

unfoldable pub notify : ℤ → (ℕ → Attempt) → Counted
unfolding send
notify retries attempt = elim (send retries attempt).0 [ none ↦ sent | some e ↦ failure ]
