-- ===== src/Transition.antt =====
-- `drain` of internal/proxy/drain.go and `rebalance` of internal/proxy/rebalancer.go: what each asks of
-- the other components, in order, with the deferred calls at the end. The answers of the lock, of the
-- strategy and of the store are arguments; for a drain, whether the lock is got is that of all its tries.
pub mod Entries
pub mod Guard
mod Tests
use sticky_proxy.Prelude.{
  ℕ, zero, ◌+◌, ◌%◌, String, Bool, true, false, Option, none, some, List, [], ◌∷◌, ◌++◌, map,
  length, get_elem?, if◌then◌else◌, is_empty, get_or,
}
use sticky_proxy.Prelude.Int.{ℤ, pos}
use sticky_proxy.Prelude.Sort.{sort}
use sticky_proxy.Maps
use sticky_proxy.Maps.{Map}
use sticky_proxy.Assignment.{Assignment, BulkAssignEntry}
use sticky_proxy.Rebalancer.{Move}
use sticky_proxy.Accounts.{by_backend}

-- The calls, each of the component that its name belongs to.
pub data Action : Type 0 where
  mark_transition clear_transition bulk_delete bulk_delete_sticky : List String → Action
  bulk_assign : Map BulkAssignEntry → Action
  send_unassign send_assign : String → List String → Action
  invalidate close_conns publish remove_backend : String → Action
  swap_conns : String → String → Action
  unlock : Action

-- Which optional components there are; `by_table` is the routing mode "assignment", `swaps` is
-- `wsSwapOnRebalance`.
pub record Setup : Type 0 where
  pub by_table : Bool
  pub has_redis : Bool
  pub has_hooks : Bool
  pub has_hold : Bool
  pub has_notifier : Bool
  pub has_tracker : Bool
  pub swaps : Bool

abbrev pub when : Bool → List Action → List Action
when b actions = if b then actions else []

-- the loop of a drain over its users
unfoldable pub forget_users : Bool → List String → List Action
forget_users has_tracker [] = []
forget_users has_tracker (u ∷ us) =
    invalidate u ∷ (when has_tracker (close_conns u ∷ []) ++ forget_users has_tracker us)

-- The deletion of the users' assignments or sticky keys.
unfoldable pub delete_users : Setup → List String → List Action
delete_users d users =
    if d.by_table
    then bulk_delete users ∷ []
    else if d.has_redis
    then bulk_delete_sticky users ∷ []
    else []

-- the part of a drain for one user or more
unfoldable pub move_out : Setup → String → List String → List Action
unfolding forget_users delete_users
move_out d backend users =
    when d.has_hold (mark_transition users ∷ [])
    ++ (when d.has_hooks (send_unassign backend users ∷ [])
        ++ (delete_users d users
            ++ (forget_users d.has_tracker users
                ++ publish backend
                  ∷ remove_backend backend
                  ∷ (when d.has_hold (clear_transition users ∷ []) ++ unlock ∷ []))))

unfoldable pub drain_users : Setup → String → List String → List Action
unfolding move_out
drain_users d backend [] = publish backend ∷ remove_backend backend ∷ unlock ∷ []
drain_users d backend (u ∷ us) = move_out d backend (u ∷ us)

-- `drain`: whether the lock is got, and the users that the table, Redis or the local cache gives (`none`
-- is an error).
unfoldable pub drain : Setup → String → Bool → Option (List String) → List Action
unfolding drain_users
drain d backend false users = []
drain d backend true none = unlock ∷ []
drain d backend true (some users) = drain_users d backend users

-- `byBackend[m.FromBackend] = append(byBackend[m.FromBackend], m.RoutingKey)`
unfoldable pub by_from : List Move → Map (List String) → Map (List String)
by_from [] groups = groups
by_from (m ∷ ms) groups = by_from ms (
    Maps.put m.from_backend (get_or [] (Maps.get m.from_backend groups) ++ m.routing_key ∷ [])
      groups)

unfoldable pub keys_of : List Move → List String
keys_of = map (λ m. m.routing_key)

-- The weight of the assignment, or 0 without one.
unfoldable pub weight_in : Map Assignment → String → ℤ
weight_in assignments key = elim (Maps.get key assignments) [ none ↦ pos zero | some a ↦ a.weight ]

-- The entries of the moves with a target, and the keys of the others.
unfoldable pub routed : Map Assignment → List Move → Map BulkAssignEntry → Map BulkAssignEntry
unfolding weight_in
routed assignments [] entries = entries
routed assignments (m ∷ ms) entries = routed assignments ms (
    if is_empty m.to_backend
    then entries
    else Maps.put m.routing_key
        (record { backend = m.to_backend; weight = weight_in assignments m.routing_key }) entries)

unfoldable pub unrouted : List Move → List String
unrouted [] = []
unrouted (m ∷ ms) =
    let rest = unrouted ms in if is_empty m.to_backend then m.routing_key ∷ rest else rest

-- Round-robin across the active backends, of which there is at least one.
unfoldable pub spread :
    Map Assignment → List String → ℕ → List String → Map BulkAssignEntry → Map BulkAssignEntry
unfolding weight_in
spread assignments active i [] entries = entries
spread assignments active i (key ∷ keys) entries = spread assignments active (i + 1) keys (
    Maps.put key
      (record {
        backend = get_or "" (get_elem? active (i % length active));
        weight = weight_in assignments key;
      })
      entries)

unfoldable pub new_entries : Map Assignment → List String → List Move → Map BulkAssignEntry
unfolding routed unrouted spread
new_entries assignments [] moves = routed assignments moves []
new_entries assignments (b ∷ bs) moves =
    spread assignments (b ∷ bs) 0 (unrouted moves) (routed assignments moves [])

-- The connections of one moved user.
abbrev pub reconnect : Bool → String → Option String → Action
reconnect true key (some b) = swap_conns key b
reconnect true key none = close_conns key
reconnect false key o = close_conns key

-- the part of a rebalance for one move or more
unfoldable pub reassign :
    Setup
    → (Map BulkAssignEntry → Map String)
    → Map Assignment
    → List String
    → List Move
    → List Action
unfolding by_from keys_of new_entries by_backend
reassign d answer assignments active moves =
    let keys = keys_of moves in
    let entries = new_entries assignments active moves in
    let assigned = answer entries in
    when d.has_hold (mark_transition keys ∷ [])
    ++ (when d.has_hooks (map (λ g. send_unassign g.0 g.1) (by_from moves []))
        ++ bulk_delete keys
          ∷ bulk_assign entries
          ∷ (map invalidate keys
              ++ (when d.has_notifier (map publish (Maps.keys (by_from moves [])))
                  ++ (when d.has_hooks (map (λ g. send_assign g.0 g.1) (by_backend assigned []))
                      ++ (when d.has_tracker
                            (map (λ k. reconnect d.swaps k (Maps.get k assigned)) keys)
                          ++ (when d.has_hold (clear_transition keys ∷ []) ++ unlock ∷ []))))))

unfoldable pub rebalance_moves :
    Setup
    → (Map BulkAssignEntry → Map String)
    → Map Assignment
    → List String
    → List Move
    → List Action
unfolding reassign
rebalance_moves d answer assignments active [] = unlock ∷ []
rebalance_moves d answer assignments active (m ∷ ms) = reassign d answer assignments active (m ∷ ms)

-- `rebalance`: whether the lock is got, what `GetAllAssignments` answers (`none` is an error), and the
-- strategy.
unfoldable pub rebalance :
    Setup
    → (Map Assignment → List String → List Move)
    → (Map BulkAssignEntry → Map String)
    → Bool
    → Option (Map Assignment)
    → List String
    → List Action
unfolding rebalance_moves
rebalance d strategy answer false assignments active = []
rebalance d strategy answer true none active = unlock ∷ []
rebalance d strategy answer true (some assignments) active =
    rebalance_moves d answer assignments (sort active) (strategy assignments (sort active))
