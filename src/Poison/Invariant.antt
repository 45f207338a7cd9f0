-- ===== src/Poison/Invariant.antt =====
-- The well-formedness of the detector of internal/proxy/poison.go.
use sticky_proxy.Prelude.{
  ℕ, zero, suc, ◌-◌, ◌≤◌, ◌<◌, ◌≡◌, refl, String, List, [], ◌∷◌, arith, length, drop, inl, inr,
  true, Option, none, some, get_or, Option-cases, subst,
}
use sticky_proxy.Maps
use sticky_proxy.Maps.{Map}
use sticky_proxy.Poison.{Detector, new, stale, trim, prune_events}
use sticky_proxy.Poison.Window.{Ordered, Ordered-mono}

length-drop : (n : ℕ) (es : List ℕ) → length (drop n es) ≡ length es - n
length-drop zero es = omega arith
length-drop (suc n) [] = omega arith
length-drop (suc n) (e ∷ es) = omega (arith, length-drop n es)

stale-le : (w now : ℕ) (es : List ℕ) → stale w now es ≤ length es
unfolding stale
stale-le w now [] = omega arith
stale-le w now (e ∷ es) = ground (arith, stale-le w now es)

abbrev pub nonempty : List ℕ → Option (List ℕ)
nonempty [] = none
nonempty (e ∷ es) = some (e ∷ es)

-- What a list of events is after a prune; `none` is a missing key.
abbrev pub survivors : ℕ → ℕ → Option (List ℕ) → Option (List ℕ)
survivors w now none = none
survivors w now (some es) = nonempty (trim w now es)

nonempty-zero : (es : List ℕ) → length es ≡ 0 → nonempty es ≡ none
nonempty-zero [] h = refl
nonempty-zero (e ∷ es) h = absurd (omega arith)

nonempty-pos : (es : List ℕ) → 0 < length es → nonempty es ≡ some es
nonempty-pos [] h = absurd (omega arith)
nonempty-pos (e ∷ es) h = refl

drop-zero : (n : ℕ) (es : List ℕ) → n ≡ 0 → drop n es ≡ es
drop-zero zero es h = refl
drop-zero (suc n) es h = absurd (omega arith)

-- The loop of `prune` trims every list, and forgets the keys whose list is empty.
pub get-prune_events :
    (w now : ℕ) (k : String) (m : Map (List ℕ))
    → Maps.Distinct m
    → Maps.get k (prune_events w now m) ≡ survivors w now (Maps.get k m)
unfolding prune_events Maps.get trim
get-prune_events w now k [] d = refl
get-prune_events w now k ((j, es) ∷ m) d = ground (
  arith,
  get-prune_events w now k m d.1,
  length-drop (stale w now es) es,
  stale-le w now es,
  nonempty-zero (drop (stale w now es) es),
  nonempty-pos (drop (stale w now es) es),
  drop-zero (stale w now es) es,
)

pub prune_events-Distinct :
    (w now : ℕ) (m : Map (List ℕ)) → Maps.Distinct m → Maps.Distinct (prune_events w now m)
unfolding prune_events
prune_events-Distinct w now [] d = d
prune_events-Distinct w now ((j, es) ∷ m) d =
    ground (arith, prune_events-Distinct w now m d.1, get-prune_events w now j m d.1)

-- What the invariant says of the events of one key.
abbrev pub Fits : ℕ → ℕ → Option (List ℕ) → Type 0
Fits threshold clock none = Unit {0}
Fits threshold clock (some es) = Ordered 0 clock es × (length es < threshold)

-- The state at a moment that no call so far is later than.
pub record IsValid (p : Detector) (clock : ℕ) : Type 0 where
  pub events_distinct : Maps.Distinct p.events
  pub quarantine_distinct : Maps.Distinct p.quarantine
  pub counted : p.quarantined_accounts ≡ length p.quarantine
  pub apart : (k : String) → Maps.has k p.quarantine ≡ true → Maps.get k p.events ≡ none
  pub fits : (k : String) → Fits p.threshold clock (Maps.get k p.events)

pub new-IsValid : (threshold window : ℕ) → IsValid (new threshold window) 0
unfolding new Maps.get
new-IsValid threshold window = record {
  events_distinct = tt;
  quarantine_distinct = tt;
  counted = refl;
  apart = λ k h. refl;
  fits = λ k. tt;
}

pub Fits-mono :
    (threshold clock now : ℕ) (o : Option (List ℕ))
    → clock ≤ now
    → Fits threshold clock o
    → Fits threshold now o
Fits-mono threshold clock now none h f = tt
Fits-mono threshold clock now (some es) h f =
    (Ordered-mono 0 0 clock now es f.0 (omega arith) h, f.1)

-- The events of a key, or none, in order.
pub events-Ordered :
    {p : Detector} {clock : ℕ} (v : IsValid p clock) (k : String)
    → Ordered 0 clock (get_or [] (Maps.get k p.events))
events-Ordered {p} {clock} v k = elim (Option-cases (Maps.get k p.events)) [
  | inl e ↦ rw e (omega arith)
  | inr (es, e) ↦ rw e (subst (Fits p.threshold clock) e (v.fits k)).0
]
