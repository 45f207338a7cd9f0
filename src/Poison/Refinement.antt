-- ===== src/Poison/Refinement.antt =====
-- The detector against its specification: per key, the full history of its reassignments since it
-- was last let go, or the mark that it is quarantined.
use sticky_proxy.Prelude.{
  Timed, ℕ, ◌≤◌, ◌≡◌, refl, String, List, [], ◌∷◌, ◌++◌, arith, leb, if◌then◌else◌, length, Bool,
  Bool-cases, inl, inr, true, false, Option, none, some, get_or, str_dec, ite, subst, ◌∙◌, ◌≢◌,
  if_pos, if_neg,
}
use sticky_proxy.Maps
use sticky_proxy.Maps.{Map}
use sticky_proxy.Poison.{
  Detector, Call, reassigned, released, pruned, new, trim, record_reassignment, unquarantine, prune,
  step, run, is_quarantined,
}
use sticky_proxy.Poison.Window.{recent, recent_later, trim-recent, recent-append}
use sticky_proxy.Poison.Invariant.{
  IsValid, Fits, survivors, nonempty, get-prune_events, new-IsValid,
}
use sticky_proxy.Poison.Preservation.{events_after, events_after-recent, step-IsValid}

pub data Watch : Type 0 where
  watching : List ℕ → Watch
  quarantined : Watch

-- One more reassignment: quarantined if the last `window` nanoseconds hold `threshold` of them.
abbrev pub note : ℕ → ℕ → ℕ → Watch → Watch
note threshold window now (watching h) =
    if leb threshold (length (recent window now (h ++ now ∷ [])))
    then quarantined
    else watching (h ++ now ∷ [])
note threshold window now quarantined = quarantined

abbrev pub let_go : Watch → Watch
let_go (watching h) = watching h
let_go quarantined = watching []

module _ (threshold window : ℕ) (key : String) where
  pub spec_step : Watch → ℕ × Call → Watch
  spec_step w (now, reassigned k) = ite (str_dec k key) (note threshold window now w) w
  spec_step w (now, released k) = ite (str_dec k key) (let_go w) w
  spec_step w (now, pruned) = w

  pub spec_run : Watch → List (ℕ × Call) → Watch
  spec_run w [] = w
  spec_run w (c ∷ cs) = spec_run (spec_step w c) cs

abbrev pub is_out : Watch → Bool
is_out (watching h) = false
is_out quarantined = true

-- What the detector holds for a key, given its history. Old moments may be gone already.
abbrev pub SeesAt : ℕ → ℕ → Bool → Option (List ℕ) → Watch → Type 0
SeesAt window clock out events (watching h) =
    (out ≡ false) × ((t : ℕ) → clock ≤ t → recent window t (get_or [] events) ≡ recent window t h)
SeesAt window clock out events quarantined = out ≡ true

abbrev pub Sees : Detector → ℕ → String → Watch → Type 0
Sees p clock key w = SeesAt p.window clock (Maps.has key p.quarantine) (Maps.get key p.events) w

SeesAt-later :
    (window clock now : ℕ) (b b' : Bool) (o o' : Option (List ℕ)) (w : Watch)
    → clock ≤ now
    → b' ≡ b
    → o' ≡ o
    → SeesAt window clock b o w
    → SeesAt window now b' o' w
SeesAt-later window clock now b b' o o' (watching h) le eb eo s =
    (eb ∙ s.0, λ t later. rw eo (s.1 t (omega arith)))
SeesAt-later window clock now b b' o o' quarantined le eb eo s = eb ∙ s

Sees-later :
    (p : Detector) (clock now : ℕ) (key : String) (w : Watch)
    → clock ≤ now
    → Sees p clock key w
    → Sees p now key w
Sees-later p clock now key w le s =
    SeesAt-later p.window clock now _ _ (Maps.get key p.events) (Maps.get key p.events) w le refl
      refl s

get_or-nonempty : (es : List ℕ) → get_or [] (nonempty es) ≡ es
get_or-nonempty [] = refl
get_or-nonempty (e ∷ es) = refl

recent-survivors :
    (threshold window clock now t : ℕ) (o : Option (List ℕ))
    → Fits threshold clock o
    → now ≤ t
    → recent window t (get_or [] (survivors window now o)) ≡ recent window t (get_or [] o)
recent-survivors threshold window clock now t none f h = refl
recent-survivors threshold window clock now t (some es) f h =
    rw (get_or-nonempty (trim window now es), trim-recent window now 0 clock es f.0)
      (recent_later window now t es h)

module _ {p : Detector} {clock : ℕ} (now : ℕ) (key : String) (v : IsValid p clock)
    (le : clock ≤ now) where
  same_window :
      (h : List ℕ) (t : ℕ)
      → now ≤ t
      → Sees p clock key (watching h)
      → recent p.window t (get_or [] (Maps.get key p.events) ++ now ∷ [])
        ≡ recent p.window t (h ++ now ∷ [])
  same_window h t later s = rw (
    recent-append p.window t (get_or [] (Maps.get key p.events)) (now ∷ []),
    recent-append p.window t h (now ∷ []),
    s.1 t (omega arith),
  )

  same_events :
      (h : List ℕ)
      → Sees p clock key (watching h)
      → events_after p key now ≡ recent p.window now (h ++ now ∷ [])
  same_events h s = events_after-recent now key v le ∙ same_window h now (omega arith) s

  kept_window :
      (h : List ℕ) (t : ℕ)
      → now ≤ t
      → Sees p clock key (watching h)
      → recent p.window t (events_after p key now) ≡ recent p.window t (h ++ now ∷ [])
  kept_window h t later s = rw (same_events h s) (recent_later p.window now t (h ++ now ∷ []) later)

  reassigned-Sees :
      (w : Watch)
      → Sees p clock key w
      → Sees (record_reassignment p key now).0 now key (note p.threshold p.window now w)
  unfolding record_reassignment
  reassigned-Sees quarantined s = rw s s
  reassigned-Sees (watching h) s =
      elim (Bool-cases (leb p.threshold (length (events_after p key now)))) [
        | inl full ↦ rw (s.0, full, ← same_events h s, full) (Maps.has-put_self key tt p.quarantine)
        | inr short ↦
            rw (s.0, short, ← same_events h s, short)
              (s.0, λ t later. rw Maps.get-put_self (kept_window h t later s))
      ]

  pruned-Sees : (w : Watch) → Sees p clock key w → Sees (prune p now) now key w
  unfolding prune
  pruned-Sees quarantined s = s
  pruned-Sees (watching h) s = (
    s.0,
    λ t later. rw (get-prune_events p.window now key p.events v.events_distinct) (
        recent-survivors p.threshold p.window clock now t _ (v.fits key) later
        ∙ s.1 t (omega arith)),
  )

  released-Sees : (w : Watch) → Sees p clock key w → Sees (unquarantine p key) now key (let_go w)
  unfolding unquarantine
  released-Sees quarantined s =
      rw s (Maps.has-del_self key p.quarantine, λ t later. rw (v.apart key s))
  released-Sees (watching h) s = rw s.0 (Sees-later p clock now key (watching h) le s)

  -- A call about the key `k` leaves every other key as it was.
  reassigned-other :
      (k : String) (w : Watch)
      → k ≢ key
      → Sees p clock key w
      → Sees (record_reassignment p k now).0 now key w
  unfolding record_reassignment
  reassigned-other k w ne s = elim (Bool-cases (Maps.has k p.quarantine)) [
    | inl held ↦ rw held (Sees-later p clock now key w le s)
    | inr free ↦ rw free (elim (Bool-cases (leb p.threshold (length (events_after p k now)))) [
      | inl full ↦ rw full (
          SeesAt-later p.window clock now _ _ (Maps.get key p.events) _ w le
            (Maps.has-put_ne k key tt p.quarantine ne)
            (Maps.get-del_ne k key _ ne ∙ Maps.get-put_ne k key _ p.events ne) s)
      | inr short ↦ rw short (
          SeesAt-later p.window clock now _ _ (Maps.get key p.events) _ w le refl
            (Maps.get-put_ne k key _ p.events ne) s)
    ])
  ]

  released-other :
      (k : String) (w : Watch) → k ≢ key → Sees p clock key w → Sees (unquarantine p k) now key w
  unfolding unquarantine
  released-other k w ne s = elim (Bool-cases (Maps.has k p.quarantine)) [
    | inl held ↦ rw held (
        SeesAt-later p.window clock now _ _ (Maps.get key p.events) (Maps.get key p.events) w le
          (Maps.has-del_ne k key p.quarantine ne) refl s)
    | inr free ↦ rw free (Sees-later p clock now key w le s)
  ]

  pub step-Sees :
      (c : Call) (w : Watch)
      → Sees p clock key w
      → Sees (step p (now, c)) now key (spec_step p.threshold p.window key w (now, c))
  unfolding step spec_step
  step-Sees (reassigned k) w s = elim (str_dec k key) [
    | yes e ↦ rw (if_pos _ e, e) (reassigned-Sees w s)
    | no ne ↦ rw (if_neg _ ne) (reassigned-other k w ne s)
  ]
  step-Sees (released k) w s = elim (str_dec k key) [
    | yes e ↦ rw (if_pos _ e, e) (released-Sees w s)
    | no ne ↦ rw (if_neg _ ne) (released-other k w ne s)
  ]
  step-Sees pruned w s = pruned-Sees w s

-- No call changes the configuration.
step-config :
    (p : Detector) (c : ℕ × Call)
    → ((step p c).threshold ≡ p.threshold) × ((step p c).window ≡ p.window)
unfolding step
step-config p (now, reassigned key) = ground arith
step-config p (now, released key) = ground arith
step-config p (now, pruned) = ground arith

run-Sees :
    (p : Detector) (clock end threshold window : ℕ) (key : String) (w : Watch)
    (cs : List (ℕ × Call))
    → IsValid p clock
    → Timed clock end cs
    → p.threshold ≡ threshold
    → p.window ≡ window
    → Sees p clock key w
    → Sees (run p cs) end key (spec_run threshold window key w cs)
unfolding run spec_run
run-Sees p clock end threshold window key w [] v t et ew s = Sees-later p clock end key w t s
run-Sees p clock end threshold window key w ((now, c) ∷ cs) v t et ew s =
    run-Sees (step p (now, c)) now end threshold window key _ cs (step-IsValid now c v t.0) t.1
      ((step-config p (now, c)).0 ∙ et) ((step-config p (now, c)).1 ∙ ew)
      (subst (λ x. Sees (step p (now, c)) now key (spec_step x window key w (now, c))) et
        (subst (λ x. Sees (step p (now, c)) now key (spec_step p.threshold x key w (now, c))) ew
          (step-Sees now key v t.0 c w s)))

Sees-is_out :
    (p : Detector) (clock : ℕ) (key : String) (w : Watch)
    → Sees p clock key w
    → Maps.has key p.quarantine ≡ is_out w
Sees-is_out p clock key (watching h) s = s.0
Sees-is_out p clock key quarantined s = s

-- Whatever calls come, in the order of the clock, and whatever was trimmed and pruned on the way:
-- a key is quarantined in the detector exactly if it is so in the specification, which keeps every
-- reassignment of the key since it was last released and quarantines it at the first one that finds
-- `threshold` of them, itself included, in the last `window` nanoseconds.
pub is_quarantined-spec_run :
    (threshold window end : ℕ) (key : String) (cs : List (ℕ × Call))
    → Timed 0 end cs
    → is_quarantined (run (new threshold window) cs) key
      ≡ is_out (spec_run threshold window key (watching []) cs)
unfolding is_quarantined new Maps.has Maps.get
is_quarantined-spec_run threshold window end key cs t =
    Sees-is_out (run (new threshold window) cs) end key _ (
      run-Sees (new threshold window) 0 end threshold window key (watching []) cs
        (new-IsValid threshold window) t refl refl (refl, λ u h. refl))
