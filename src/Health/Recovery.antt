-- ===== src/Health/Recovery.antt =====
-- `checkAll` of internal/proxy/health_checker.go on a backend that is held unhealthy and is out of the
-- active set.
use sticky_proxy.Prelude.{
  ℕ, suc, ◌<◌, ◌≡◌, ◌≢◌, refl, ◌∙◌, String, Bool, true, false, ◌||◌, none, some, List, [], ◌∷◌,
  ◌++◌, str_dec, ite, arith, Bool-cases, inl, inr, listed, subst,
}
use sticky_proxy.Maps
use sticky_proxy.Maps.{Map}
use sticky_proxy.Hashing.{listing}
use sticky_proxy.Health.{
  Health, HealthChecker, Action, add_backend, remove_backend, start_drain, trigger, fresh,
  record_result, record_all, merge, prune, merged, check_all, detect_change,
}

-- The merge keeps what is known, and enters only listed backends.
merge-get :
    (active : List String) (k : String) (s : Health) (states : Map Health)
    → Maps.get k states ≡ some s
    → Maps.get k (merge active states) ≡ some s
unfolding merge Maps.has
merge-get [] k s states e = e
merge-get (b ∷ bs) k s states e = ground (
  arith,
  merge-get bs k s states e,
  merge-get bs k s (Maps.put b fresh states),
  Maps.get-put b k fresh states,
)

merge-Distinct :
    (active : List String) (states : Map Health)
    → Maps.Distinct states
    → Maps.Distinct (merge active states)
unfolding merge
merge-Distinct [] states d = d
merge-Distinct (b ∷ bs) states d = elim (Bool-cases (Maps.has b states)) [
  | inl e ↦ rw e (merge-Distinct bs states d)
  | inr e ↦ rw e (merge-Distinct bs (Maps.put b fresh states) (Maps.put-Distinct b fresh states d))
]

prune-get-none :
    (active : List String) (k : String) (states : Map Health)
    → Maps.get k states ≡ none
    → Maps.get k (prune active states) ≡ none
unfolding prune Maps.get
prune-get-none active k [] e = refl
prune-get-none active k ((b, s) ∷ states) e = ground (arith, prune-get-none active k states)

prune-forgets :
    (active : List String) (k : String) (s : Health) (states : Map Health)
    → Maps.Distinct states
    → Maps.get k states ≡ some s
    → s.healthy ≡ false
    → listed k active ≡ false
    → Maps.get k (prune active states) ≡ none
unfolding prune Maps.get
prune-forgets active k s [] d e h l = refl
prune-forgets active k s ((b, t) ∷ states) d e h l =
    ground (arith, prune-forgets active k s states d.1, prune-get-none active k states)

-- Once a round has recorded a result of the backend that does not flip it, no action about it comes.
first_result :
    (hc : HealthChecker) (k : String) (ok : Bool)
    → Maps.get k hc.states ≡ none
    → 1 < hc.unhealthy_threshold
    → ((record_result hc k ok).1 ≡ [])
      × ((s : Health) × (Maps.get k (record_result hc k ok).0.states ≡ some s) × (s.healthy ≡ true))
unfolding record_result
first_result hc k true e live = (
  ground arith,
  (
    record { consecutive_fails = 0; consecutive_successes = 1; healthy = true },
    ground (
      arith,
      Maps.get-put_self k
          (record { consecutive_fails = 0; consecutive_successes = 1; healthy = true }) hc.states,
    ),
    refl,
  ),
)
first_result hc k false e live = (
  ground arith,
  (
    record { consecutive_fails = 1; consecutive_successes = 0; healthy = true },
    ground (
      arith,
      Maps.get-put_self k
          (record { consecutive_fails = 1; consecutive_successes = 0; healthy = true }) hc.states,
    ),
    refl,
  ),
)

-- Whether `AddBackend` is asked for the backend.
unfoldable pub asks_add : String → List Action → Bool
asks_add k [] = false
asks_add k (add_backend b ∷ as') = ite (str_dec b k) true (asks_add k as')
asks_add k (remove_backend b ∷ as') = asks_add k as'
asks_add k (start_drain b ∷ as') = asks_add k as'
asks_add k (trigger bs ∷ as') = asks_add k as'

-- How often a round records a result of the backend.
unfoldable pub probes : String → List (String × Bool) → ℕ
probes k [] = 0
probes k ((b, ok) ∷ rs) = ite (str_dec b k) (suc (probes k rs)) (probes k rs)

asks_add-append :
    (k : String) (xs ys : List Action) → asks_add k (xs ++ ys) ≡ asks_add k xs || asks_add k ys
unfolding asks_add
asks_add-append k [] ys = refl
asks_add-append k (add_backend b ∷ xs) ys = ground (arith, asks_add-append k xs ys)
asks_add-append k (remove_backend b ∷ xs) ys = asks_add-append k xs ys
asks_add-append k (start_drain b ∷ xs) ys = asks_add-append k xs ys
asks_add-append k (trigger b ∷ xs) ys = asks_add-append k xs ys

asks_add-other :
    (hc : HealthChecker) (b k : String) (ok : Bool)
    → b ≢ k
    → (asks_add k (record_result hc b ok).1 ≡ false)
      × (Maps.get k (record_result hc b ok).0.states ≡ Maps.get k hc.states)
unfolding record_result asks_add
asks_add-other hc b k true ne = (ground arith, Maps.get-put_ne b k _ hc.states ne)
asks_add-other hc b k false ne = (ground arith, Maps.get-put_ne b k _ hc.states ne)

threshold_kept :
    (hc : HealthChecker) (b : String) (ok : Bool)
    → (record_result hc b ok).0.unhealthy_threshold ≡ hc.unhealthy_threshold
unfolding record_result
threshold_kept hc b true = refl
threshold_kept hc b false = refl

others_only :
    (hc : HealthChecker) (k : String) (results : List (String × Bool))
    → probes k results ≡ 0
    → (asks_add k (record_all hc results).1 ≡ false)
      × (Maps.get k (record_all hc results).0.states ≡ Maps.get k hc.states)
unfolding record_all probes
others_only hc k [] h = (unfold asks_add in refl, refl)
others_only hc k ((b, ok) ∷ rs) h =
    let ne : b ≢ k = λ e. ground arith in
    let (quiet, same) = asks_add-other hc b k ok ne in
    let (quiet', same') = others_only (record_result hc b ok).0 k rs (ground arith) in
    (rw (asks_add-append k (record_result hc b ok).1, quiet) quiet', same' ∙ same)

recorded_once :
    (hc : HealthChecker) (k : String) (results : List (String × Bool))
    → Maps.get k hc.states ≡ none
    → 1 < hc.unhealthy_threshold
    → probes k results ≡ 1
    → (asks_add k (record_all hc results).1 ≡ false)
      × ((s : Health) × (Maps.get k (record_all hc results).0.states ≡ some s) × (s.healthy ≡ true))
unfolding record_all probes
recorded_once hc k [] e live h = absurd (omega arith)
recorded_once hc k ((b, ok) ∷ rs) e live h = elim (str_dec b k) [
  | yes p ↦
      let (quiet, (t, kept, up)) = first_result hc b ok (rw p e) live in
      let (quiet', same') = others_only (record_result hc b ok).0 k rs (ground arith) in
      (
        rw (asks_add-append k (record_result hc b ok).1, quiet) (unfold asks_add in quiet'),
        (t, same' ∙ subst (λ x. Maps.get x (record_result hc b ok).0.states ≡ some t) p kept, up),
      )
  | no ne ↦
      let (quiet, same) = asks_add-other hc b k ok ne in
      let (quiet', found) =
        recorded_once (record_result hc b ok).0 k rs (same ∙ e) (rw (threshold_kept hc b ok) live)
          (ground arith) in
      (rw (asks_add-append k (record_result hc b ok).1, quiet) quiet', found)
]

detect_change-states :
    (hc : HealthChecker) (k : String)
    → ((detect_change hc).0.states ≡ hc.states) × (asks_add k (detect_change hc).1 ≡ false)
unfolding detect_change asks_add
detect_change-states hc k = ground arith

-- A backend that is held unhealthy and is not in the active set counts as healthy again once the next
-- round has recorded its probe, whether the probe succeeded or failed, and the round does not ask for
-- `AddBackend`: a backend that recovers is not put back, and one that is still down counts as healthy.
-- The unhealthy threshold is two or more.
pub check_all_forgets :
    (hc : HealthChecker) (active : List String) (k : String) (s : Health)
    (results : List (String × Bool))
    → Maps.Distinct hc.states
    → Maps.get k hc.states ≡ some s
    → s.healthy ≡ false
    → listed k active ≡ false
    → 1 < hc.unhealthy_threshold
    → probes k results ≡ 1
    → let r = check_all hc (listing active) results in
      (asks_add k r.1 ≡ false)
      × ((t : Health) × (Maps.get k r.0.states ≡ some t) × (t.healthy ≡ true))
unfolding check_all
check_all_forgets hc active k s results d e down gone live once =
    let start : HealthChecker = record hc { states = prune active (merged hc active) } in
    let absent : Maps.get k start.states ≡ none =
      unfold merged in
      prune-forgets active k s (merge active hc.states) (merge-Distinct active hc.states d)
        (merge-get active k s hc.states e) down gone in
    let (quiet, (t, kept, up)) = recorded_once start k results absent live once in
    let (same, quiet') = detect_change-states (record_all start results).0 k in
    (rw (asks_add-append k (record_all start results).1, quiet) quiet', (t, rw same kept, up))
