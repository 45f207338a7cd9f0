-- ===== src/Transition/Entries.antt =====
-- What a rebalance (internal/proxy/rebalancer.go) asks the store to assign.
use sticky_proxy.Prelude.{
  ℕ, ◌+◌, ◌%◌, ◌≡◌, ◌≢◌, refl, String, Bool, true, false, not, ◌&&◌, ◌||◌, some, List, [], ◌∷◌, All,
  length, get_elem?, is_empty, get_or, listed, str_dec, ite, arith, Bool-cases, inl, inr,
}
use sticky_proxy.Maps
use sticky_proxy.Maps.{Map}
use sticky_proxy.Assignment.{Assignment, BulkAssignEntry}
use sticky_proxy.Rebalancer.{Move}
use sticky_proxy.Transition.{keys_of, weight_in, routed, unrouted, spread, new_entries}

-- Whether a move of the user has a target.
unfoldable has_target : String → List Move → Bool
has_target u [] = false
has_target u (m ∷ ms) =
    (not (is_empty m.to_backend) && ite (str_dec m.routing_key u) true false) || has_target u ms

has_target-unrouted :
    (u : String) (ms : List Move)
    → has_target u ms || listed u (unrouted ms) ≡ listed u (keys_of ms)
unfolding has_target unrouted listed keys_of
has_target-unrouted u [] = refl
has_target-unrouted u (m ∷ ms) = ground (arith, has_target-unrouted u ms)

routed-has :
    (assignments : Map Assignment) (ms : List Move) (entries : Map BulkAssignEntry) (u : String)
    → Maps.has u (routed assignments ms entries) ≡ has_target u ms || Maps.has u entries
unfolding routed has_target
routed-has assignments [] entries u = refl
routed-has assignments (m ∷ ms) entries u =
    let e : BulkAssignEntry = record {
      backend = m.to_backend;
      weight = weight_in assignments m.routing_key;
    } in
    ground (
      arith,
      routed-has assignments ms entries u,
      routed-has assignments ms (Maps.put m.routing_key e entries) u,
      Maps.has-put m.routing_key u e entries,
    )

spread-has :
    (assignments : Map Assignment) (active : List String) (i : ℕ) (keys : List String)
    (entries : Map BulkAssignEntry) (u : String)
    → Maps.has u (spread assignments active i keys entries) ≡ listed u keys || Maps.has u entries
unfolding spread listed
spread-has assignments active i [] entries u = refl
spread-has assignments active i (k ∷ keys) entries u =
    let e : BulkAssignEntry = record {
      backend = get_or "" (get_elem? active (i % length active));
      weight = weight_in assignments k;
    } in
    ground (
      arith,
      spread-has assignments active (i + 1) keys (Maps.put k e entries) u,
      Maps.has-put k u e entries,
    )

-- Nobody else is assigned.
pub new_entries-listed :
    (assignments : Map Assignment) (active : List String) (moves : List Move) (u : String)
    → Maps.has u (new_entries assignments active moves) ≡ true
    → listed u (keys_of moves) ≡ true
unfolding new_entries Maps.has Maps.get
new_entries-listed assignments [] moves u h =
    ground (arith, routed-has assignments moves [] u, has_target-unrouted u moves)
new_entries-listed assignments (b ∷ bs) moves u h = ground (
  arith,
  spread-has assignments (b ∷ bs) 0 (unrouted moves) (routed assignments moves []) u,
  routed-has assignments moves [] u,
  has_target-unrouted u moves,
)

-- The entry has the weight that the user had.
abbrev KeepsWeight : Map Assignment → Map BulkAssignEntry → Type 0
KeepsWeight assignments = All (λ e. e.1.weight ≡ weight_in assignments e.0)

routed-KeepsWeight :
    (assignments : Map Assignment) (ms : List Move) (entries : Map BulkAssignEntry)
    → KeepsWeight assignments entries
    → KeepsWeight assignments (routed assignments ms entries)
unfolding routed
routed-KeepsWeight assignments [] entries h = h
routed-KeepsWeight assignments (m ∷ ms) entries h = elim (Bool-cases (is_empty m.to_backend)) [
  | inl e ↦ rw e (routed-KeepsWeight assignments ms entries h)
  | inr e ↦ rw e (
      routed-KeepsWeight assignments ms _
        (Maps.put-All (λ e. e.1.weight ≡ weight_in assignments e.0) m.routing_key _ entries h refl))
]

spread-KeepsWeight :
    (assignments : Map Assignment) (active : List String) (i : ℕ) (keys : List String)
    (entries : Map BulkAssignEntry)
    → KeepsWeight assignments entries
    → KeepsWeight assignments (spread assignments active i keys entries)
unfolding spread
spread-KeepsWeight assignments active i [] entries h = h
spread-KeepsWeight assignments active i (k ∷ keys) entries h =
    spread-KeepsWeight assignments active (i + 1) keys _
      (Maps.put-All (λ e. e.1.weight ≡ weight_in assignments e.0) k _ entries h refl)

-- With an active backend, the entries that a rebalance asks for are exactly those of the moved users,
-- and each keeps the weight of the user's assignment.
pub new_entries-keys_of :
    (assignments : Map Assignment) (active : List String) (moves : List Move) (u : String)
    → active ≢ []
    → (Maps.has u (new_entries assignments active moves) ≡ listed u (keys_of moves))
      × ((e : BulkAssignEntry)
          → Maps.get u (new_entries assignments active moves) ≡ some e
          → e.weight ≡ weight_in assignments u)
unfolding new_entries
new_entries-keys_of assignments [] moves u ne = absurd (ne refl)
new_entries-keys_of assignments (b ∷ bs) moves u ne =
    let first = routed assignments moves [] in
    let none_yet : Map BulkAssignEntry = [] in
    let nobody : Maps.has u none_yet ≡ false = unfold Maps.has Maps.get in refl in
    (
      ground (
        arith,
        nobody,
        spread-has assignments (b ∷ bs) 0 (unrouted moves) first u,
        routed-has assignments moves [] u,
        has_target-unrouted u moves,
      ),
      λ e h.
          Maps.get-All (λ e. e.1.weight ≡ weight_in assignments e.0) u e _
            (spread-KeepsWeight assignments (b ∷ bs) 0 (unrouted moves) first
              (routed-KeepsWeight assignments moves [] tt))
            h,
    )
