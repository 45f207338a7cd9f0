-- ===== src/Poison/Counts.antt =====
-- One more reassignment of a key when all the earlier ones are in the window (internal/proxy/poison.go).
use sticky_proxy.Prelude.{
  ℕ, ◌+◌, ◌≤◌, ◌<◌, ◌≡◌, refl, String, true, false, List, [], ◌∷◌, ◌++◌, All, All-append, length,
  length-append, get_or, leb, le→leb, arith,
}
use sticky_proxy.Maps
use sticky_proxy.Poison.{Detector, stale, trim, record_reassignment}

-- The events of a key.
abbrev pub events_of : Detector → String → List ℕ
events_of d key = get_or [] (Maps.get key d.events)

stale-none :
    (window now : ℕ) (es : List ℕ) → All (λ e. now ≤ e + window) es → stale window now es ≡ 0
unfolding stale
stale-none window now [] h = refl
stale-none window now (e ∷ es) h = ground arith

trim-kept :
    (window now : ℕ) (es : List ℕ)
    → All (λ e. now ≤ e + window) es
    → trim window now (es ++ now ∷ []) ≡ es ++ now ∷ []
unfolding trim
trim-kept window now es h =
    rw
      (stale-none window now (es ++ now ∷ [])
        (All-append (λ e. now ≤ e + window) es (now ∷ []) h (omega arith, tt)))
      refl

-- With the earlier reassignments in the window, one more quarantines the key when they are `threshold`
-- together.
pub record-quarantines :
    (d : Detector) (key : String) (now : ℕ)
    → Maps.has key d.quarantine ≡ false
    → All (λ e. now ≤ e + d.window) (events_of d key)
    → d.threshold ≤ length (events_of d key) + 1
    → ((record_reassignment d key now).1 ≡ true)
      × (Maps.has key (record_reassignment d key now).0.quarantine ≡ true)
unfolding record_reassignment
record-quarantines d key now free h le =
    rw (free, trim-kept d.window now (events_of d key) h, enough)
      (refl, Maps.has-put_self key tt d.quarantine)
  where
    enough : leb d.threshold (length (events_of d key ++ now ∷ [])) ≡ true
    enough = le→leb d.threshold _ (omega (arith, length-append (events_of d key) (now ∷ [])))

-- Fewer are noted.
pub record-notes :
    (d : Detector) (key : String) (now : ℕ)
    → Maps.has key d.quarantine ≡ false
    → All (λ e. now ≤ e + d.window) (events_of d key)
    → length (events_of d key) + 1 < d.threshold
    → record_reassignment d key now
      ≡ (record d { events = Maps.put key (events_of d key ++ now ∷ []) d.events }, false)
unfolding record_reassignment
record-notes d key now free h lt = rw (free, trim-kept d.window now (events_of d key) h, few) refl
  where
    few : leb d.threshold (length (events_of d key ++ now ∷ [])) ≡ false
    few = ground (arith, length-append (events_of d key) (now ∷ []))
