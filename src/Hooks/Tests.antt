-- ===== src/Hooks/Tests.antt =====
-- A notification that gets the status 503 first and 200 then.
use sticky_proxy.Prelude.{ℕ, zero, suc, ◌+◌, ◌<◌, ◌≡◌, refl, true, none, arith}
use sticky_proxy.Prelude.Int.{pos}
use sticky_proxy.Hooks.{
  Attempt, answered, is_success, conclude, send_loop, attempts, send, failure, notify,
}
use sticky_proxy.Hooks.Attempts.{Delivered, send-Delivered, retried}

abbrev busy : ℕ → Attempt
busy zero = answered 503
busy (suc n) = answered 200

second : (send (pos 2) busy ≡ (none, 2)) × (notify (pos 0) busy ≡ failure)
unfolding send attempts send_loop conclude is_success notify
second = (refl, refl)

send-Delivered_example :
    ((k : ℕ) → Delivered busy 3 0 k → send (pos 2) busy ≡ (none, suc k))
    × ((send (pos 2) busy).0 ≡ none → (k : ℕ) × Delivered busy 3 0 k)
send-Delivered_example = send-Delivered busy 2

delivered : Delivered busy 3 0 1
unfolding is_success
delivered = (omega arith, first, refl)
  where
    first : (j : ℕ) → j < 1 → retried (busy (0 + j)) ≡ true
    first zero h = refl
    first (suc j) h = absurd (omega arith)
