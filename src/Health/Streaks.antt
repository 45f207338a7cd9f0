-- ===== src/Health/Streaks.antt =====
-- The thresholds: how many results in a row change the health of a backend.
use sticky_proxy.Prelude.{
  ℕ, suc, ◌≡◌, ◌≢◌, refl, ◌∙◌, ap, String, Bool, true, false, not, ◌&&◌, ◌||◌, some, List, [], ◌∷◌,
  if◌then◌else◌, str_dec, ite, arith, if_pos, if_neg, leb, get_or,
}
use sticky_proxy.Maps
use sticky_proxy.Maps.{Map}
use sticky_proxy.Health.{
  Health, HealthChecker, Action, add_backend, remove_backend, start_drain, fresh, record_result,
  record_all,
}

-- What the results of one backend so far, newest first, say: how many of the newest are failures.
unfoldable pub failures_in_row : List Bool → ℕ
failures_in_row [] = 0
failures_in_row (true ∷ rs) = 0
failures_in_row (false ∷ rs) = suc (failures_in_row rs)

unfoldable pub successes_in_row : List Bool → ℕ
successes_in_row [] = 0
successes_in_row (true ∷ rs) = suc (successes_in_row rs)
successes_in_row (false ∷ rs) = 0

-- The health that the results call for: it falls when `unhealthy` failures in a row are reached and
-- rises when `healthy` successes in a row are.
unfoldable pub health_of : ℕ → ℕ → List Bool → Bool
unfolding failures_in_row successes_in_row
health_of unhealthy healthy [] = true
health_of unhealthy healthy (true ∷ rs) =
    health_of unhealthy healthy rs || leb healthy (successes_in_row (true ∷ rs))
health_of unhealthy healthy (false ∷ rs) =
    health_of unhealthy healthy rs && not (leb unhealthy (failures_in_row (false ∷ rs)))

unfoldable pub health_state : ℕ → ℕ → List Bool → Health
unfolding health_of
health_state unhealthy healthy rs = record {
  consecutive_fails = failures_in_row rs;
  consecutive_successes = successes_in_row rs;
  healthy = health_of unhealthy healthy rs;
}

-- The action that a result must cause.
abbrev pub wanted : Bool → String → Bool → Bool → List Action
wanted drains backend true false =
    (if drains then start_drain backend else remove_backend backend) ∷ []
wanted drains backend false true = add_backend backend ∷ []
wanted drains backend _ _ = []

module _ (hc : HealthChecker) (backend : String) (rs : List Bool) where
  abbrev Recorded : Type 0
  Recorded =
      get_or fresh (Maps.get backend hc.states)
      ≡ health_state hc.unhealthy_threshold hc.healthy_threshold rs

  -- If the state of a backend is that of its results so far, one more result brings it to that of the
  -- longer list, and the checker asks for an action exactly if the health changes: `AddBackend` when it
  -- rises, and a drain or `RemoveBackend` when it falls.
  pub record_result-health_state :
      (success : Bool)
      → Recorded
      → let r = record_result hc backend success in
        (Maps.get backend r.0.states
          ≡ some (health_state hc.unhealthy_threshold hc.healthy_threshold (success ∷ rs)))
        × (r.1
            ≡ wanted hc.drains backend
                (health_of hc.unhealthy_threshold hc.healthy_threshold rs)
                (health_of hc.unhealthy_threshold hc.healthy_threshold (success ∷ rs)))
  unfolding record_result health_state
  record_result-health_state true h =
      rw h (Maps.get-put_self backend _ hc.states ∙ ap some (ground arith), ground arith)
  record_result-health_state false h =
      rw h (Maps.get-put_self backend _ hc.states ∙ ap some (ground arith), ground arith)

-- The states are those of the histories of results, per backend.
abbrev pub Tracks : HealthChecker → (String → List Bool) → Type 0
Tracks hc history =
    (b : String)
    → get_or fresh (Maps.get b hc.states)
      ≡ health_state hc.unhealthy_threshold hc.healthy_threshold (history b)

unfoldable pub add_result : (String → List Bool) → String → Bool → String → List Bool
add_result history backend success b = ite (str_dec backend b) (success ∷ history b) (history b)

unfoldable pub add_results : (String → List Bool) → List (String × Bool) → String → List Bool
add_results history [] = history
add_results history ((b, ok) ∷ rs) = add_results (add_result history b ok) rs

record_result-config :
    (hc : HealthChecker) (b : String) (ok : Bool)
    → ((record_result hc b ok).0.unhealthy_threshold ≡ hc.unhealthy_threshold)
      × ((record_result hc b ok).0.healthy_threshold ≡ hc.healthy_threshold)
unfolding record_result
record_result-config hc b true = (refl, refl)
record_result-config hc b false = (refl, refl)

record_result-other :
    (hc : HealthChecker) (b k : String) (ok : Bool)
    → b ≢ k
    → Maps.get k (record_result hc b ok).0.states ≡ Maps.get k hc.states
unfolding record_result
record_result-other hc b k true ne = Maps.get-put_ne b k _ hc.states ne
record_result-other hc b k false ne = Maps.get-put_ne b k _ hc.states ne

record_result-Tracks :
    (hc : HealthChecker) (history : String → List Bool) (b : String) (ok : Bool)
    → Tracks hc history
    → Tracks (record_result hc b ok).0 (add_result history b ok)
unfolding add_result
record_result-Tracks hc history b ok t k = elim (str_dec b k) [
  | yes e ↦
      rw
        (
          if_pos (str_dec b k) e,
          (record_result-config hc b ok).0,
          (record_result-config hc b ok).1,
          ← e,
        )
        (ap (get_or fresh) (record_result-health_state hc b (history b) ok (t b)).0)
  | no ne ↦
      rw
        (
          if_neg (str_dec b k) ne,
          (record_result-config hc b ok).0,
          (record_result-config hc b ok).1,
        )
        (ap (get_or fresh) (record_result-other hc b k ok ne) ∙ t k)
]

-- Over any sequence of results of any backends, the state of each backend is that of its own history.
pub record_all-Tracks :
    (hc : HealthChecker) (history : String → List Bool) (results : List (String × Bool))
    → Tracks hc history
    → Tracks (record_all hc results).0 (add_results history results)
unfolding record_all add_results
record_all-Tracks hc history [] t = t
record_all-Tracks hc history ((b, ok) ∷ rs) t =
    record_all-Tracks (record_result hc b ok).0 (add_result history b ok) rs
      (record_result-Tracks hc history b ok t)
