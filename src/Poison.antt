-- ===== src/Poison.antt =====
-- internal/proxy/poison.go: the poison pill detector. A moment is a number of nanoseconds and is an
-- argument of each call; a method runs under the mutex, so it is one step.
pub mod Window
pub mod Counts
pub mod Invariant
pub mod Preservation
pub mod Refinement
mod Tests
use sticky_proxy.Prelude.{
  ℕ, zero, suc, ◌+◌, ◌-◌, String, Bool, true, false, List, [], ◌∷◌, ◌++◌, Option, ltb, leb, ◌==◌,
  if◌then◌else◌, length, drop, get_or,
}
use sticky_proxy.Maps
use sticky_proxy.Maps.{Map}

-- The last two fields are the metrics `quarantinedAccounts` and `poisonPillDetections`.
pub record Detector : Type 0 where
  pub events : Map (List ℕ)
  pub quarantine : Map (Unit {0})
  pub threshold : ℕ
  pub window : ℕ
  pub quarantined_accounts : ℕ
  pub detections : ℕ

unfoldable pub new : ℕ → ℕ → Detector
new threshold window = record {
  events = [];
  quarantine = [];
  threshold = threshold;
  window = window;
  quarantined_accounts = 0;
  detections = 0;
}

-- `for i < len(events) && events[i].Before(cutoff) { i++ }`, with the cutoff `now - window`
unfoldable pub stale : ℕ → ℕ → List ℕ → ℕ
stale window now [] = 0
stale window now (e ∷ es) = if ltb (e + window) now then suc (stale window now es) else 0

-- `events[i:]`
unfoldable pub trim : ℕ → ℕ → List ℕ → List ℕ
trim window now es = drop (stale window now es) es

unfoldable pub record_reassignment : Detector → String → ℕ → Detector × Bool
record_reassignment p key now =
    if Maps.has key p.quarantine
    then (p, true)
    else (let events = trim p.window now (get_or [] (Maps.get key p.events) ++ now ∷ []) in
        let kept = Maps.put key events p.events in
        if leb p.threshold (length events)
        then (
          record p {
            events = Maps.del key kept;
            quarantine = Maps.put key tt p.quarantine;
            quarantined_accounts = p.quarantined_accounts + 1;
            detections = p.detections + 1;
          },
          true,
        )
        else (record p { events = kept }, false))

unfoldable pub is_quarantined : Detector → String → Bool
is_quarantined p key = Maps.has key p.quarantine

unfoldable pub unquarantine : Detector → String → Detector
unquarantine p key =
    if Maps.has key p.quarantine
    then record p {
      quarantine = Maps.del key p.quarantine;
      quarantined_accounts = p.quarantined_accounts - 1;
    }
    else p

unfoldable pub accounts : Detector → List String
accounts p = Maps.keys p.quarantine

-- the loop of `prune`
unfoldable pub prune_events : ℕ → ℕ → Map (List ℕ) → Map (List ℕ)
prune_events window now [] = []
prune_events window now ((key, es) ∷ m) =
    let i = stale window now es in
    let rest = prune_events window now m in
    if i == length es
    then rest
    else if ltb 0 i
    then if length (drop i es) == 0 then rest else (key, drop i es) ∷ rest
    else (key, es) ∷ rest

unfoldable pub prune : Detector → ℕ → Detector
prune p now = record p { events = prune_events p.window now p.events }

-- A call of the API or of the background loop, at a moment.
pub data Call : Type 0 where
  reassigned : String → Call
  released : String → Call
  pruned : Call

unfoldable pub step : Detector → ℕ × Call → Detector
unfolding record_reassignment unquarantine prune
step p (now, reassigned key) = (record_reassignment p key now).0
step p (now, released key) = unquarantine p key
step p (now, pruned) = prune p now

unfoldable pub run : Detector → List (ℕ × Call) → Detector
run p [] = p
run p (c ∷ cs) = run (step p c) cs
