-- ===== src/Rebalancer/Plan.antt =====
-- What one step of the least-loaded plan does: the target that is picked, and the planned weights
-- after a move.
use sticky_proxy.Prelude.{
  ℕ, ◌+◌, ◌-◌, ◌≤◌, ◌<◌, ◌≡◌, ◌≢◌, inl, inr, String, true, ◌&&◌, List, [], ◌∷◌, ltb, leb, str_dec,
  ite, listed, get_or, Bool-cases, arith,
}
use sticky_proxy.Maps
use sticky_proxy.Maps.{Map}
use sticky_proxy.Rebalancer.{pick_target, shift}

-- The planned weight of a backend.
abbrev pub load : String → Map ℕ → ℕ
load b planned = get_or 0 (Maps.get b planned)

-- A target that can absorb the weight `w` in the list, or the target from before.
pub data Picked (ideal w : ℕ) (planned : Map ℕ) (bs : List String) (t : String)
    : String → Type 0 where
  kept : Picked ideal w planned bs t t
  found :
      (r : String)
      → listed r bs ≡ true
      → load r planned < ideal
      → load r planned + w ≤ ideal + 1
      → Picked ideal w planned bs t r

found_later :
    (ideal w : ℕ) (planned : Map ℕ) (b : String) (bs : List String) (t r : String)
    → Picked ideal w planned bs t r
    → Picked ideal w planned (b ∷ bs) t r
unfolding listed
found_later ideal w planned b bs t _ kept = kept
found_later ideal w planned b bs t _ (found r h lt le) = found r (ground arith) lt le

found_here :
    (ideal w : ℕ) (planned : Map ℕ) (b : String) (bs : List String) (t r : String)
    → load b planned < ideal
    → load b planned + w ≤ ideal + 1
    → Picked ideal w planned bs b r
    → Picked ideal w planned (b ∷ bs) t r
unfolding listed
found_here ideal w planned b bs t _ lt le kept = found b (ground arith) lt le
found_here ideal w planned b bs t _ _ _ (found r h lt le) = found r (ground arith) lt le

pub pick_target-Picked :
    (ideal w : ℕ) (planned : Map ℕ) (bs : List String) (m : ℕ) (t : String)
    → m ≤ ideal
    → Picked ideal w planned bs t (pick_target ideal w planned bs m t)
unfolding pick_target
pick_target-Picked ideal w planned [] m t le = kept
pick_target-Picked ideal w planned (b ∷ bs) m t le =
    elim (Bool-cases (ltb (load b planned) m && leb (load b planned + w) (ideal + 1))) [
      | inl e ↦ rw e (
          found_here ideal w planned b bs t _ (ground arith) (ground arith)
            (pick_target-Picked ideal w planned bs (load b planned) b (ground arith)))
      | inr e ↦
          rw e (found_later ideal w planned b bs t _ (pick_target-Picked ideal w planned bs m t le))
    ]

-- Moving the weight `w` from one backend to another one.
pub load-shift :
    (planned : Map ℕ) (target backend b : String) (w : ℕ)
    → target ≢ backend
    → load b (shift planned target backend w)
      ≡ ite
          (str_dec backend b)
          (load b planned - w)
          (ite (str_dec target b) (load b planned + w) (load b planned))
unfolding shift
load-shift planned target backend b w ne = ground (
  arith,
  Maps.get-put target b (load target planned + w) planned,
  Maps.get-put target backend (load target planned + w) planned,
  Maps.get-put backend b (load backend (Maps.put target (load target planned + w) planned) - w)
      (Maps.put target (load target planned + w) planned),
)
