-- ===== src/Poison/Preservation.antt =====
-- The calls of the detector of internal/proxy/poison.go and its well-formedness.
use sticky_proxy.Prelude.{
  Timed, ℕ, ◌+◌, ◌≤◌, ◌<◌, ◌≡◌, sym, String, List, [], ◌∷◌, ◌++◌, arith, leb, length, Bool-cases,
  inl, inr, false, Option, none, some, get_or, str_dec, ite,
}
use sticky_proxy.Maps
use sticky_proxy.Maps.{Map}
use sticky_proxy.Poison.{
  Detector, Call, reassigned, released, pruned, new, trim, record_reassignment, unquarantine, prune,
  step, run,
}
use sticky_proxy.Poison.Window.{
  length-recent-le, recent, Ordered, Ordered-append, Ordered-mono, trim-recent, recent-Ordered,
}
use sticky_proxy.Poison.Invariant.{
  IsValid, Fits, Fits-mono, survivors, nonempty, events-Ordered, get-prune_events,
  prune_events-Distinct, new-IsValid,
}

-- The list that `RecordReassignment` stores.
-- Time passes and nothing changes.
pub IsValid-at :
    {p : Detector} {clock : ℕ} (now : ℕ) → IsValid p clock → clock ≤ now → IsValid p now
IsValid-at {p} {clock} now v h = record {
  events_distinct = v.events_distinct;
  quarantine_distinct = v.quarantine_distinct;
  counted = v.counted;
  apart = v.apart;
  fits = λ k. Fits-mono p.threshold clock now (Maps.get k p.events) h (v.fits k);
}

abbrev pub events_after : Detector → String → ℕ → List ℕ
events_after p key now = trim p.window now (get_or [] (Maps.get key p.events) ++ now ∷ [])

pub events_after-recent :
    {p : Detector} {clock : ℕ} (now : ℕ) (key : String)
    → IsValid p clock
    → clock ≤ now
    → events_after p key now ≡ recent p.window now (get_or [] (Maps.get key p.events) ++ now ∷ [])
events_after-recent {p} {clock} now key v h =
    trim-recent p.window now 0 now _
      (Ordered-append 0 clock now (get_or [] (Maps.get key p.events)) (events-Ordered v key) h)

pub events_after-Ordered :
    {p : Detector} {clock : ℕ} (now : ℕ) (key : String)
    → IsValid p clock
    → clock ≤ now
    → Ordered 0 now (events_after p key now)
events_after-Ordered {p} {clock} now key v h = rw (events_after-recent now key v h) (
    recent-Ordered p.window now 0 now _
      (Ordered-append 0 clock now (get_or [] (Maps.get key p.events)) (events-Ordered v key) h))

Fits-ite :
    (threshold now : ℕ) (j k : String) (a b : Option (List ℕ))
    → Fits threshold now a
    → Fits threshold now b
    → Fits threshold now (ite (str_dec j k) a b)
Fits-ite threshold now j k a b fa fb = elim (str_dec j k) as (λ d. Fits threshold now (ite d a b)) [
  | yes _ ↦ fa
  | no _ ↦ fb
]

Fits-del :
    (threshold now : ℕ) (j k : String) (a b : Option (List ℕ))
    → Fits threshold now b
    → Fits threshold now (ite (str_dec j k) none (ite (str_dec j k) a b))
Fits-del threshold now j k a b f =
    elim (str_dec j k) as (λ d. Fits threshold now (ite d none (ite d a b))) [
      | yes _ ↦ tt
      | no _ ↦ f
    ]

Fits-nonempty :
    (threshold now : ℕ) (es : List ℕ)
    → Fits threshold now (some es)
    → Fits threshold now (nonempty es)
Fits-nonempty threshold now [] f = tt
Fits-nonempty threshold now (e ∷ es) f = f

Fits-survivors :
    (threshold window clock now : ℕ) (o : Option (List ℕ))
    → clock ≤ now
    → Fits threshold clock o
    → Fits threshold now (survivors window now o)
Fits-survivors threshold window clock now none h f = tt
Fits-survivors threshold window clock now (some es) h f = Fits-nonempty threshold now _ (
    rw (trim-recent window now 0 clock es f.0) (
      Ordered-mono 0 0 clock now _ (recent-Ordered window now 0 clock es f.0) (omega arith) h,
      omega (arith, length-recent-le window now es),
    ))

module _ {p : Detector} {clock : ℕ} (now : ℕ) (key : String) (v : IsValid p clock)
    (h : clock ≤ now) where
  -- `now` joins the list of `key`, which stays short.
  watch-IsValid :
      Maps.has key p.quarantine ≡ false
      → length (events_after p key now) < p.threshold
      → IsValid (record p { events = Maps.put key (events_after p key now) p.events }) now
  watch-IsValid free short = record {
    events_distinct = Maps.put-Distinct key _ p.events v.events_distinct;
    quarantine_distinct = v.quarantine_distinct;
    counted = v.counted;
    apart = λ k held.
        ground (arith, Maps.get-put key k (events_after p key now) p.events, v.apart k held);
    fits = λ k. rw (Maps.get-put key k (events_after p key now) p.events) (
        Fits-ite p.threshold now key k _ _ (events_after-Ordered now key v h, short)
          (Fits-mono p.threshold clock now _ h (v.fits k)));
  }

  quarantine-IsValid :
      Maps.has key p.quarantine ≡ false
      → IsValid
          (record p {
            events = Maps.del key (Maps.put key (events_after p key now) p.events);
            quarantine = Maps.put key tt p.quarantine;
            quarantined_accounts = p.quarantined_accounts + 1;
            detections = p.detections + 1;
          })
          now
  quarantine-IsValid free = record {
    events_distinct = Maps.del-Distinct key _ (Maps.put-Distinct key _ p.events v.events_distinct);
    quarantine_distinct = Maps.put-Distinct key tt p.quarantine v.quarantine_distinct;
    counted =
        rw v.counted
          (sym (Maps.length-put_new key tt p.quarantine (Maps.get-eq-none key p.quarantine free)));
    apart = λ k held. ground (
      arith,
      Maps.get-del key k (Maps.put key (events_after p key now) p.events),
      Maps.get-put key k (events_after p key now) p.events,
      Maps.has-put key k tt p.quarantine,
      v.apart k,
    );
    fits = λ k.
        rw (Maps.get-del, Maps.get-put)
          (Fits-del p.threshold now key k _ _ (Fits-mono p.threshold clock now _ h (v.fits k)));
  }

  pub prune-IsValid : IsValid (prune p now) now
  unfolding prune
  prune-IsValid = record {
    events_distinct = prune_events-Distinct p.window now p.events v.events_distinct;
    quarantine_distinct = v.quarantine_distinct;
    counted = v.counted;
    apart = λ k held.
        ground (arith, get-prune_events p.window now k p.events v.events_distinct, v.apart k held);
    fits = λ k.
        rw (get-prune_events p.window now k p.events v.events_distinct)
          (Fits-survivors p.threshold p.window clock now _ h (v.fits k));
  }

  pub unquarantine-IsValid : IsValid (unquarantine p key) now
  unfolding unquarantine
  unquarantine-IsValid = elim (Bool-cases (Maps.has key p.quarantine)) [
    | inl held ↦ rw (held) (record {
      events_distinct = v.events_distinct;
      quarantine_distinct = Maps.del-Distinct key p.quarantine v.quarantine_distinct;
      counted =
          let (u, e) = Maps.get-eq-some key p.quarantine held in
          omega (arith, Maps.length-del key p.quarantine u v.quarantine_distinct e, v.counted);
      apart = λ k q. ground (arith, Maps.has-del key k p.quarantine, v.apart k);
      fits = λ k. Fits-mono p.threshold clock now (Maps.get k p.events) h (v.fits k);
    })
    | inr free ↦ rw free (IsValid-at now v h)
  ]

  pub record_reassignment-IsValid : IsValid (record_reassignment p key now).0 now
  unfolding record_reassignment
  record_reassignment-IsValid = elim (Bool-cases (Maps.has key p.quarantine)) [
    | inl held ↦ rw held (IsValid-at now v h)
    | inr free ↦ rw free (elim (Bool-cases (leb p.threshold (length (events_after p key now)))) [
      | inl full ↦ rw full (quarantine-IsValid free)
      | inr short ↦ rw short (watch-IsValid free (ground arith))
    ])
  ]

pub step-IsValid :
    {p : Detector} {clock : ℕ} (now : ℕ) (c : Call)
    → IsValid p clock
    → clock ≤ now
    → IsValid (step p (now, c)) now
unfolding step
step-IsValid now (reassigned key) v h = record_reassignment-IsValid now key v h
step-IsValid now (released key) v h = unquarantine-IsValid now key v h
step-IsValid now pruned v h = prune-IsValid now "" v h

-- The moments of the calls do not decrease from `clock` to `end`.
pub run-IsValid :
    (p : Detector) (clock end : ℕ) (cs : List (ℕ × Call))
    → IsValid p clock
    → Timed clock end cs
    → IsValid (run p cs) end
unfolding run
run-IsValid p clock end [] v t = IsValid-at end v t
run-IsValid p clock end ((now, c) ∷ cs) v t =
    run-IsValid (step p (now, c)) now end cs (step-IsValid now c v t.0) t.1

-- Whatever calls come, in the order of the clock, a detector made by `NewPoisonPillDetector` keeps
-- its invariant: the gauge `quarantinedAccounts` is the number of quarantined keys, a quarantined
-- key has no events, and every event list is ordered and shorter than the threshold.
pub run-new-IsValid :
    (threshold window end : ℕ) (cs : List (ℕ × Call))
    → Timed 0 end cs
    → IsValid (run (new threshold window) cs) end
run-new-IsValid threshold window end cs t = run-IsValid _ 0 end cs (new-IsValid threshold window) t
