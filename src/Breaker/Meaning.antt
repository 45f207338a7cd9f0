-- ===== src/Breaker/Meaning.antt =====
-- The breaker of internal/proxy/redis.go against a count of the failures in a row and the last of them.
use sticky_proxy.Prelude.{
  Timed, ℕ, ◌+◌, ◌≤◌, ◌<◌, ◌≡◌, refl, ◌∙◌, Bool, false, List, [], ◌∷◌, leb, ltb, arith, ◌&&◌, subst,
}
use sticky_proxy.Breaker.{
  Breaker, State, closed, open_circuit, half_open, Call, asked, failed, succeeded, new, is_open,
  step, run,
}

-- The specification: failures since the last success, and when the last one came.
pub record Streak : Type 0 where
  pub count : ℕ
  pub last : ℕ

unfoldable pub observe : Streak → ℕ × Call → Streak
observe s (now, asked) = s
observe s (now, failed) = record { count = s.count + 1; last = now }
observe s (now, succeeded) = record s { count = 0 }

unfoldable pub observe_all : Streak → List (ℕ × Call) → Streak
observe_all s [] = s
observe_all s (c ∷ cs) = observe_all (observe s c) cs

-- The circuit is open while a long enough streak has ended less than a cooldown ago.
unfoldable pub blocks : ℕ → ℕ → Streak → ℕ → Bool
blocks threshold cooldown s now = leb threshold s.count && ltb now (s.last + cooldown)

abbrev pub StateFits : State → Breaker → Streak → ℕ → Type 0
StateFits closed b s clock = s.count < b.threshold
StateFits open_circuit b s clock = (b.threshold ≤ s.count) × (b.opened_at ≡ s.last)
StateFits half_open b s clock = (b.threshold ≤ s.count) × (s.last + b.cooldown ≤ clock)

pub record Follows (b : Breaker) (s : Streak) (clock : ℕ) : Type 0 where
  pub counted : b.failures ≡ s.count
  pub live : 0 < b.threshold
  pub fits : StateFits b.state b s clock

step-Follows :
    (b : Breaker) (s : Streak) (clock now : ℕ) (c : Call)
    → clock ≤ now
    → Follows b s clock
    → Follows (step b (now, c)) (observe s (now, c)) now
unfolding step observe
step-Follows b s clock now asked le f = ground arith
step-Follows b s clock now failed le f = ground arith
step-Follows b s clock now succeeded le f = ground arith

step-config :
    (b : Breaker) (c : ℕ × Call)
    → ((step b c).threshold ≡ b.threshold) × ((step b c).cooldown ≡ b.cooldown)
unfolding step
step-config b (now, asked) = ground arith
step-config b (now, failed) = ground arith
step-config b (now, succeeded) = ground arith

later-Follows :
    (b : Breaker) (s : Streak) (clock now : ℕ) → clock ≤ now → Follows b s clock → Follows b s now
later-Follows b s clock now le f = ground arith

run-Follows :
    (b : Breaker) (s : Streak) (clock end : ℕ) (cs : List (ℕ × Call))
    → Timed clock end cs
    → Follows b s clock
    → Follows (run b cs) (observe_all s cs) end
unfolding run observe_all
run-Follows b s clock end [] t f = later-Follows b s clock end t f
run-Follows b s clock end ((now, c) ∷ cs) t f =
    run-Follows (step b (now, c)) (observe s (now, c)) now end cs t.1
      (step-Follows b s clock now c t.0 f)

run-config :
    (b : Breaker) (cs : List (ℕ × Call))
    → ((run b cs).threshold ≡ b.threshold) × ((run b cs).cooldown ≡ b.cooldown)
unfolding run
run-config b [] = (refl, refl)
run-config b (c ∷ cs) = (
  (run-config (step b c) cs).0 ∙ (step-config b c).0,
  (run-config (step b c) cs).1 ∙ (step-config b c).1,
)

is_open-Follows :
    (b : Breaker) (s : Streak) (clock now : ℕ)
    → clock ≤ now
    → Follows b s clock
    → (is_open b now).1 ≡ blocks b.threshold b.cooldown s now
unfolding is_open blocks
is_open-Follows b s clock now le f = ground arith

-- After any calls in the order of the clock, `isCBOpen` answers true exactly if there have been at
-- least `threshold` failures since the last success (or the start) and the last of them is less than
-- a cooldown ago. The threshold is taken to be positive.
pub is_open-blocks :
    (threshold cooldown end now : ℕ) (cs : List (ℕ × Call))
    → 0 < threshold
    → Timed 0 end cs
    → end ≤ now
    → (is_open (run (new threshold cooldown) cs) now).1
      ≡ blocks threshold cooldown (observe_all (record { count = 0; last = 0 }) cs) now
unfolding new
is_open-blocks threshold cooldown end now cs live t le =
    subst (λ x. Answer x cooldown) (run-config b cs).0
      (subst (λ x. Answer (run b cs).threshold x) (run-config b cs).1
        (is_open-Follows (run b cs) _ end now le
          (run-Follows b _ 0 end cs t (record { counted = refl; live = live; fits = live }))))
  where
    b : Breaker
    b = new threshold cooldown

    Answer : ℕ → ℕ → Type 0
    Answer x y =
        (is_open (run b cs) now).1
        ≡ blocks x y (observe_all (record { count = 0; last = 0 }) cs) now

-- Once the cooldown is over every request is let through, not one probe only: as long as no result
-- comes in, no number of further questions closes the way again.
pub half_open_lets_all_through :
    (b : Breaker) (now later : ℕ)
    → b.state ≡ open_circuit
    → b.opened_at + b.cooldown ≤ now
    → (is_open (is_open b now).0 later) ≡ ((is_open b now).0, false)
unfolding is_open
half_open_lets_all_through b now later e h = ground arith
