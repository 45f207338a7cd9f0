-- ===== src/Rebalancer/Load.antt =====
-- The loads of the backends after the moves of `LeastLoadedStrategy`, internal/proxy/rebalancer.go.
use sticky_proxy.Prelude.{
  ℕ, ◌+◌, ◌-◌, ◌≤◌, ◌≡◌, ◌≢◌, refl, ap, subst, String, List, [], ◌∷◌, ◌++◌, ltb, leb, if◌then◌else◌,
  str_dec, ite, is_empty, not_empty, Bool-cases, inl, inr, arith,
}
use sticky_proxy.Maps
use sticky_proxy.Maps.{Map}
use sticky_proxy.Assignment.{Assignment, effective_weight}
use sticky_proxy.Rebalancer.{
  Move, pick_target, shift, weight_of, zero_weights, add_weights, plan_users, plan_groups,
  excess_of, group_users, ideal_weight, weights_of, least_loaded,
}
use sticky_proxy.Rebalancer.Plan.{load, Picked, kept, found, pick_target-Picked}

-- The sum of the weights of the users of a backend.
unfoldable pub load_of : String → Map Assignment → ℕ
load_of b [] = 0
load_of b ((user, a) ∷ assignments) =
    ite (str_dec a.backend b) (effective_weight a + load_of b assignments) (load_of b assignments)

-- The sums of the weights of the users that are moved to a backend and from it.
unfoldable pub weight_to : Map Assignment → String → List Move → ℕ
weight_to assignments b [] = 0
weight_to assignments b (m ∷ ms) =
    ite (str_dec m.to_backend b) (weight_of assignments m.routing_key + weight_to assignments b ms)
      (weight_to assignments b ms)

unfoldable pub weight_from : Map Assignment → String → List Move → ℕ
weight_from assignments b [] = 0
weight_from assignments b (m ∷ ms) =
    ite (str_dec m.from_backend b)
      (weight_of assignments m.routing_key + weight_from assignments b ms)
      (weight_from assignments b ms)

abbrev pub larger : ℕ → ℕ → ℕ
larger a b = if ltb a b then b else a

weight_to-append :
    (assignments : Map Assignment) (b : String) (xs ys : List Move)
    → weight_to assignments b (xs ++ ys) ≡ weight_to assignments b xs + weight_to assignments b ys
unfolding weight_to
weight_to-append assignments b [] ys = omega arith
weight_to-append assignments b (m ∷ xs) ys = ground (arith, weight_to-append assignments b xs ys)

weight_from-append :
    (assignments : Map Assignment) (b : String) (xs ys : List Move)
    → weight_from assignments b (xs ++ ys)
      ≡ weight_from assignments b xs + weight_from assignments b ys
unfolding weight_from
weight_from-append assignments b [] ys = omega arith
weight_from-append assignments b (m ∷ xs) ys =
    ground (arith, weight_from-append assignments b xs ys)

-- No move loses weight, and a receiver ends up where the move says.
shift_at :
    (planned : Map ℕ) (target backend b : String) (w : ℕ)
    → (load b planned + ite (str_dec target b) w 0
        ≤ load b (shift planned target backend w) + ite (str_dec backend b) w 0)
      × (load b (shift planned target backend w) ≤ load b planned + ite (str_dec target b) w 0)
unfolding shift
shift_at planned target backend b w = ground (
  arith,
  Maps.get-put target b (load target planned + w) planned,
  Maps.get-put target backend (load target planned + w) planned,
  Maps.get-put backend b (load backend (Maps.put target (load target planned + w) planned) - w)
      (Maps.put target (load target planned + w) planned),
)

Picked-fits :
    (ideal w : ℕ) (planned : Map ℕ) (bs : List String) (r : String)
    → Picked ideal w planned bs "" r
    → r ≢ ""
    → load r planned + w ≤ ideal + 1
Picked-fits ideal w planned bs _ kept ne = absurd (ne refl)
Picked-fits ideal w planned bs _ (found r l lt le) ne = le

module _ (active : List String) (assignments : Map Assignment) (weights : Map ℕ) (ideal : ℕ) where
  -- The plan accounts for all its moves, and stays within the bound.
  abbrev Accounts : String → Map ℕ → List Move × Map ℕ → Type 0
  Accounts b planned r =
      (load b planned + weight_to assignments b r.0 ≤ load b r.1 + weight_from assignments b r.0)
      × ((n : ℕ) → load b planned ≤ n → ideal + 1 ≤ n → load b r.1 ≤ n)

  plan_users-Accounts :
      (b : String) (excess : ℕ) (backend : String) (moved : ℕ) (planned : Map ℕ)
      (users : List String)
      → Accounts b planned
          (plan_users active assignments weights ideal excess backend moved planned users)
  unfolding plan_users weight_to weight_from
  plan_users-Accounts b excess backend moved planned [] = (omega arith, λ n h k. h)
  plan_users-Accounts b excess backend moved planned (user ∷ users) =
      elim (Bool-cases (leb excess moved)) [
        | inl e ↦ rw e (omega arith, λ n h k. h)
        | inr e ↦ rw e (elim (Bool-cases (is_empty t)) [
          | inl p ↦ rw p (plan_users-Accounts b excess backend moved planned users)
          | inr p ↦
              let fits =
                Picked-fits ideal w planned active t
                  (pick_target-Picked ideal w planned active ideal "" (omega arith))
                  (not_empty t p) in
              let rest =
                plan_users-Accounts b excess backend (moved + w) (shift planned t backend w)
                  users in
              let s = shift_at planned t backend b w in
              rw p (
                ground (arith, rest.0, s.0),
                λ n h k.
                    rest.1 n
                      (elim (str_dec t b) [
                        | yes q ↦
                            subst (λ x. x ≤ n) refl
                              (ground (arith, s.1, ap (λ x. load x planned) q))
                        | no q ↦ ground (arith, s.1)
                      ])
                      k,
              )
        ])
      ]
    where
      w : ℕ
      w = weight_of assignments user

      t : String
      t = pick_target ideal w planned active ideal ""

  plan_groups-Accounts :
      (b : String) (planned : Map ℕ) (groups : Map (List String))
      → Accounts b planned (plan_groups active assignments weights ideal planned groups)
  unfolding plan_groups weight_to weight_from
  plan_groups-Accounts b planned [] = (omega arith, λ n h k. h)
  plan_groups-Accounts b planned ((backend, users) ∷ groups) =
      let here =
        plan_users active assignments weights ideal (excess_of active weights ideal backend) backend
          0 planned users in
      let h =
        plan_users-Accounts b (excess_of active weights ideal backend) backend 0 planned users in
      let k = plan_groups-Accounts b here.1 groups in
      (
        omega (
          arith,
          h.0,
          k.0,
          weight_to-append assignments b here.0 _,
          weight_from-append assignments b here.0 _,
        ),
        λ n p q. k.1 n (h.1 n p q) q,
      )

add_weights-load :
    (b : String) (assignments : Map Assignment) (weights : Map ℕ)
    → load b (add_weights assignments weights) ≡ load_of b assignments + load b weights
unfolding add_weights load_of
add_weights-load b [] weights = omega arith
add_weights-load b ((user, a) ∷ assignments) weights =
    let w = load a.backend weights + effective_weight a in
    ground (
      arith,
      add_weights-load b assignments (Maps.put a.backend w weights),
      Maps.get-put a.backend b w weights,
      ap (λ x. load x weights),
    )

zero_weights-load :
    (b : String) (active : List String) (weights : Map ℕ)
    → load b weights ≡ 0
    → load b (zero_weights active weights) ≡ 0
unfolding zero_weights
zero_weights-load b [] weights h = h
zero_weights-load b (c ∷ active) weights h =
    zero_weights-load b active (Maps.put c 0 weights) (ground (arith, Maps.get-put c b 0 weights))

weights_of-load :
    (b : String) (assignments : Map Assignment) (active : List String)
    → load b (weights_of assignments active) ≡ load_of b assignments
unfolding weights_of
weights_of-load b assignments active = omega (
  arith,
  add_weights-load b assignments (zero_weights active []),
  zero_weights-load b active [] (unfold Maps.get in refl),
)

-- After the moves of the least-loaded strategy, the users of a backend weigh no more than before or
-- than the ideal weight plus 1, whichever is larger (what it has, and gets, against what it gives).
pub least_loaded-load_of :
    (assignments : Map Assignment) (active : List String) (b : String)
    → let moves = least_loaded assignments active in
      load_of b assignments + weight_to assignments b moves
      ≤ larger (load_of b assignments) (ideal_weight (weights_of assignments active) active + 1)
        + weight_from assignments b moves
unfolding least_loaded
least_loaded-load_of assignments [] b = unfold weight_to weight_from in ground arith
least_loaded-load_of assignments (c ∷ active) b =
    let weights = weights_of assignments (c ∷ active) in
    let ideal = ideal_weight weights (c ∷ active) in
    let planned =
      plan_groups-Accounts (c ∷ active) assignments weights ideal b weights
        (group_users assignments []) in
    let same = weights_of-load b assignments (c ∷ active) in
    let bound =
      planned.1 (larger (load_of b assignments) (ideal + 1)) (ground arith) (ground arith) in
    omega (arith, planned.0, bound, same)
