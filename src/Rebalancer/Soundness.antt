-- ===== src/Rebalancer/Soundness.antt =====
-- About single moves of `LeastLoadedStrategy`, internal/proxy/rebalancer.go.
use sticky_proxy.Prelude.{
  ℕ, ◌+◌, ◌≤◌, ◌<◌, ◌≡◌, ◌≢◌, refl, subst, String, true, none, some, List, [], ◌∷◌, ◌++◌, All, leb,
  listed, get_or, is_empty, not_empty, All-append, Bool-cases, Option-cases, inl, inr, arith,
}
use sticky_proxy.Maps
use sticky_proxy.Maps.{Map}
use sticky_proxy.Assignment.{Assignment}
use sticky_proxy.Rebalancer.{
  Move, pick_target, shift, weight_of, plan_users, plan_groups, excess_of, group_users,
  ideal_weight, weights_of, least_loaded,
}
use sticky_proxy.Rebalancer.Plan.{load, Picked, kept, found, pick_target-Picked, load-shift}

-- The user is assigned to the backend.
abbrev pub Held : Map Assignment → String → String → Type 0
Held assignments user backend =
    (a : Assignment) × (Maps.get user assignments ≡ some a) × (a.backend ≡ backend)

-- A move of a user away from the user's backend, to another backend, which is active.
pub record IsSound (assignments : Map Assignment) (active : List String) (m : Move) : Type 0 where
  pub held : Held assignments m.routing_key m.from_backend
  pub other : m.to_backend ≢ m.from_backend
  pub is_listed : listed m.to_backend active ≡ true

module _ (active : List String) (assignments : Map Assignment) (weights : Map ℕ) (ideal : ℕ) where
  -- A backend that still has to shed is no target.
  target-other :
      (backend t : String) (w moved : ℕ) (planned : Map ℕ)
      → load backend weights ≤ load backend planned + moved
      → moved < excess_of active weights ideal backend
      → listed t active ≡ true
      → load t planned < ideal
      → t ≢ backend
  unfolding excess_of
  target-other backend t w moved planned inv lt l small e =
      let l' : listed backend active ≡ true = subst (λ x. listed x active ≡ true) e l in
      let small' : load backend planned < ideal = subst (λ x. load x planned < ideal) e small in
      ground arith

  Picked-found :
      (w : ℕ) (planned : Map ℕ) (r : String)
      → Picked ideal w planned active "" r
      → r ≢ ""
      → (listed r active ≡ true) × (load r planned < ideal)
  Picked-found w planned _ kept ne = absurd (ne refl)
  Picked-found w planned _ (found r l lt le) ne = (l, lt)

  -- What the loop over the users of a backend gives: sound moves, and no loss for other backends.
  abbrev Gives : String → Map ℕ → List Move × Map ℕ → Type 0
  Gives backend planned r =
      All (IsSound assignments active) r.0
      × ((b : String) → b ≢ backend → load b planned ≤ load b r.1)

  plan_users-Gives :
      (backend : String) (moved : ℕ) (planned : Map ℕ) (users : List String)
      → load backend weights ≤ load backend planned + moved
      → All (λ u. Held assignments u backend) users
      → Gives backend planned (
          plan_users active assignments weights ideal
            (excess_of active weights ideal backend)
            backend
            moved
            planned
            users)
  unfolding plan_users
  plan_users-Gives backend moved planned [] inv h = (tt, λ b ne. omega arith)
  plan_users-Gives backend moved planned (user ∷ users) inv h =
      elim (Bool-cases (leb excess moved)) [
        | inl e ↦ rw e (tt, λ b ne. omega arith)
        | inr e ↦ rw e (elim (Bool-cases (is_empty t)) [
          | inl p ↦ rw p (plan_users-Gives backend moved planned users inv h.1)
          | inr p ↦
              let f =
                Picked-found w planned t
                  (pick_target-Picked ideal w planned active ideal "" (omega arith))
                  (not_empty t p) in
              let ne = target-other backend t w moved planned inv (ground arith) f.0 f.1 in
              let rest =
                plan_users-Gives backend (moved + w) (shift planned t backend w) users
                  (ground (arith, load-shift planned t backend backend w ne)) h.1 in
              rw p (
                (record { held = h.0; other = ne; is_listed = f.0 }, rest.0),
                λ b bn. ground (arith, rest.1 b bn, load-shift planned t backend b w ne),
              )
        ])
      ]
    where
      excess : ℕ
      excess = excess_of active weights ideal backend

      w : ℕ
      w = weight_of assignments user

      t : String
      t = pick_target ideal w planned active ideal ""

  plan_groups-IsSound :
      (planned : Map ℕ) (groups : Map (List String))
      → Maps.Distinct groups
      → All (λ g. All (λ u. Held assignments u g.0) g.1) groups
      → ((b : String) → Maps.get b groups ≢ none → load b weights ≤ load b planned)
      → All
          (IsSound assignments active)
          (plan_groups active assignments weights ideal planned groups).0
  unfolding plan_groups Maps.get
  plan_groups-IsSound planned [] d h inv = tt
  plan_groups-IsSound planned ((backend, users) ∷ groups) d h inv =
      let here =
        plan_users-Gives backend 0 planned users (omega (arith, inv backend (λ e. ground arith)))
          h.0 in
      All-append (IsSound assignments active) _ _ here.0 (
        plan_groups-IsSound
          (plan_users active assignments weights ideal (excess_of active weights ideal backend)
            backend 0 planned users).1
          groups d.1 h.1 (λ b present. ground (arith, inv b, here.1 b)))

-- The groups hold the users of their backends.
group_users-All :
    (full : Map Assignment) (assignments : Map Assignment) (groups : Map (List String))
    → All (λ e. Maps.get e.0 full ≡ some e.1) assignments
    → All (λ g. All (λ u. Held full u g.0) g.1) groups
    → Maps.Distinct groups
    → All (λ g. All (λ u. Held full u g.0) g.1) (group_users assignments groups)
      × Maps.Distinct (group_users assignments groups)
unfolding group_users
group_users-All full [] groups known h d = (h, d)
group_users-All full ((user, a) ∷ assignments) groups known h d =
    group_users-All full assignments
      (Maps.put a.backend (get_or [] (Maps.get a.backend groups) ++ user ∷ []) groups) known.1
      (Maps.put-All (λ g. All (λ u. Held full u g.0) g.1) a.backend _ groups h
        (All-append (λ u. Held full u a.backend) _ _ users ((a, known.0, refl), tt)))
      (Maps.put-Distinct a.backend _ groups d)
  where
    users : All (λ u. Held full u a.backend) (get_or [] (Maps.get a.backend groups))
    users = elim (Option-cases (Maps.get a.backend groups)) [
      | inl e ↦ rw e tt
      | inr (us, e) ↦
          rw e (Maps.get-All (λ g. All (λ u. Held full u g.0) g.1) a.backend us groups h e)
    ]

-- Every move of the least-loaded strategy takes a user from the backend that the user is assigned to,
-- to another one, which is active.
pub least_loaded-IsSound :
    (assignments : Map Assignment) (active : List String)
    → Maps.Distinct assignments
    → All (IsSound assignments active) (least_loaded assignments active)
unfolding least_loaded
least_loaded-IsSound assignments [] d = tt
least_loaded-IsSound assignments (b ∷ bs) d =
    let groups =
      group_users-All assignments assignments [] (Maps.Distinct-All assignments d) tt tt in
    let weights = weights_of assignments (b ∷ bs) in
    plan_groups-IsSound (b ∷ bs) assignments weights (ideal_weight weights (b ∷ bs)) weights
      (group_users assignments []) groups.1 groups.0 (λ c p. omega arith)
