-- ===== src/Kubernetes/Repeats.antt =====
-- Reconciles one after the other (`applyDesiredState` of internal/proxy/discovery_kubernetes.go).
use sticky_proxy.Prelude.{
  ◌≡◌, ◌≢◌, refl, sym, ◌∙◌, ap, String, Bool, true, false, Option, none, some, List, [], ◌∷◌, ◌++◌,
  str_dec, arith, All, Bool-cases, inl, inr,
}
use sticky_proxy.Maps
use sticky_proxy.Maps.{Map}
use sticky_proxy.Kubernetes.{
  EpState, unknown, active, terminating, Discovery, Action, cancel_drain, add_backend, start_drain,
  remove_backend, decide, first_loop, second_loop, apply_desired_state,
}

-- The backend of an action.
abbrev pub url_of_action : Action → String
url_of_action (cancel_drain url) = url
url_of_action (add_backend url) = url
url_of_action (start_drain url) = url
url_of_action (remove_backend url) = url

-- No action is about the backend.
abbrev pub Quiet : String → List Action → Type 0
Quiet k as' = All (λ a. url_of_action a ≢ k) as'

Quiet-append : (k : String) (xs ys : List Action) → Quiet k xs → Quiet k ys → Quiet k (xs ++ ys)
Quiet-append k [] ys q r = r
Quiet-append k (x ∷ xs) ys q r = (q.0, Quiet-append k xs ys q.1 r)

decide-Quiet :
    (drains : Bool) (url k : String) (s : EpState) (prev : Option EpState)
    → url ≢ k
    → Quiet k (decide drains url s prev)
unfolding decide
decide-Quiet drains url k unknown prev ne = tt
decide-Quiet true url k active none ne = (ne, tt)
decide-Quiet true url k active (some unknown) ne = (ne, tt)
decide-Quiet true url k active (some active) ne = tt
decide-Quiet true url k active (some terminating) ne = (ne, (ne, tt))
decide-Quiet false url k active none ne = (ne, tt)
decide-Quiet false url k active (some unknown) ne = (ne, tt)
decide-Quiet false url k active (some active) ne = tt
decide-Quiet false url k active (some terminating) ne = (ne, tt)
decide-Quiet drains url k terminating (some terminating) ne = tt
decide-Quiet true url k terminating none ne = (ne, tt)
decide-Quiet true url k terminating (some unknown) ne = (ne, tt)
decide-Quiet true url k terminating (some active) ne = (ne, tt)
decide-Quiet false url k terminating none ne = (ne, tt)
decide-Quiet false url k terminating (some unknown) ne = (ne, tt)
decide-Quiet false url k terminating (some active) ne = (ne, tt)

decide_same : (drains : Bool) (url : String) (s : EpState) → decide drains url s (some s) ≡ []
unfolding decide
decide_same drains url unknown = refl
decide_same drains url active = ground arith
decide_same drains url terminating = refl

first_loop-Quiet :
    (drains : Bool) (k : String) (prev desired : Map EpState)
    → Maps.Distinct desired
    → ((s : EpState) → Maps.get k desired ≡ some s → Maps.get k prev ≡ some s)
    → Quiet k (first_loop drains prev desired)
unfolding first_loop
first_loop-Quiet drains k prev [] d h = tt
first_loop-Quiet drains k prev ((url, s) ∷ desired) d h =
    let rest =
      first_loop-Quiet drains k prev desired d.1
        (λ t e. h t (Maps.get-tail k t (url, s) desired d e)) in
    elim (str_dec url k) [
      | no ne ↦
          Quiet-append k (decide drains url s (Maps.get url prev)) (first_loop drains prev desired)
            (decide-Quiet drains url k s (Maps.get url prev) ne) rest
      | yes e ↦
          rw
            (
              e,
              h s (ap (λ x. Maps.get x ((url, s) ∷ desired)) (sym e) ∙ Maps.get-head url s desired),
              decide_same drains k s,
            )
            rest
    ]

second_loop-Quiet :
    (k : String) (desired prev : Map EpState)
    → (Maps.has k prev ≡ true → Maps.has k desired ≡ true)
    → Quiet k (second_loop desired prev)
unfolding second_loop
second_loop-Quiet k desired [] h = tt
second_loop-Quiet k desired ((url, s) ∷ prev) h =
    let rest = second_loop-Quiet k desired prev (λ e. h (Maps.has-tail k (url, s) prev e)) in
    elim (Bool-cases (Maps.has url desired)) [ inl e ↦ rw e rest | inr e ↦ rw e (differs e, rest) ]
  where
    differs : Maps.has url desired ≡ false → url ≢ k
    differs e same =
        let there : Maps.has k desired ≡ true = h (
          ap (λ x. Maps.has x ((url, s) ∷ prev)) (sym same)
          ∙ unfold Maps.has Maps.get in ground arith) in
        let not_there : Maps.has k desired ≡ false = ap (λ x. Maps.has x desired) (sym same) ∙ e in
        cc

-- What the reconciles with these desired states ask for.
unfoldable pub reconciles : Discovery → List (Map EpState) → List Action
unfolding apply_desired_state
reconciles d [] = []
reconciles d (m ∷ ms) = let (d', actions) = apply_desired_state d m in actions ++ reconciles d' ms

reconciles-Quiet :
    (d : Discovery) (k : String) (o : Option EpState) (later : List (Map EpState))
    → Maps.get k d.known ≡ o
    → All (λ m. Maps.Distinct m × (Maps.get k m ≡ o)) later
    → Quiet k (reconciles d later)
unfolding reconciles apply_desired_state
reconciles-Quiet d k o [] h same = tt
reconciles-Quiet d k o (m ∷ ms) h same =
    let e : Maps.get k m ≡ Maps.get k d.known = same.0.1 ∙ sym h in
    Quiet-append k (first_loop d.drains d.known m ++ second_loop m d.known) _
      (Quiet-append k (first_loop d.drains d.known m) (second_loop m d.known)
        (first_loop-Quiet d.drains k d.known m same.0.0 (λ s f. sym e ∙ f))
        (second_loop-Quiet k m d.known (λ f. unfold Maps.has in ground (arith, e, f))))
      (reconciles-Quiet (record d { known = m }) k o ms same.0.1 same.1)

-- A reconcile takes its desired state for reached, whatever the store answered: the reconciles that
-- follow, whose desired states name no backend twice, ask for nothing about a backend as long as its
-- desired state stays the same, whatever becomes of the others. So an `AddBackend` that failed is not
-- tried again until the desired state of that backend changes.
pub reconciles_quiet :
    (d : Discovery) (desired : Map EpState) (k : String) (later : List (Map EpState))
    → All (λ m. Maps.Distinct m × (Maps.get k m ≡ Maps.get k desired)) later
    → All (λ a. url_of_action a ≢ k) (reconciles (apply_desired_state d desired).0 later)
unfolding apply_desired_state
reconciles_quiet d desired k later same =
    reconciles-Quiet (record d { known = desired }) k (Maps.get k desired) later refl same
