-- ===== src/Accounts.antt =====
-- internal/proxy/discovery.go: the discovery of accounts, which assigns them before their first request.
-- A reconcile gets the answers of the account source and of the store and returns what it asks of the
-- store and of the hooks, in order. The loop that repeats it is a timer.
pub mod Targets
mod Tests
use sticky_proxy.Prelude.{
  ℕ, ◌+◌, ◌%◌, String, Bool, Option, none, some, List, [], ◌∷◌, ◌++◌, length, get_elem?,
  if◌then◌else◌, listed, get_or, map,
}
use sticky_proxy.Prelude.Int.{ℤ}
use sticky_proxy.Prelude.Sort.{sort}
use sticky_proxy.Maps
use sticky_proxy.Maps.{Map}
use sticky_proxy.Assignment.{Assignment, BulkAssignEntry}
use sticky_proxy.Hashing.{Listing, failed, listing}

-- `DiscoveredAccount`
pub record Account : Type 0 where
  pub id : String
  pub weight : ℤ

pub data Action : Type 0 where
  bulk_delete : List String → Action
  bulk_assign : Map BulkAssignEntry → Action
  send_assign : String → List String → Action

-- The stale keys, and the accounts to assign.
unfoldable pub split : Map Assignment → List String → List Account → List String × List Account
split current active [] = ([], [])
split current active (acct ∷ accounts) =
    let rest = split current active accounts in
    elim (Maps.get acct.id current) [
      | none ↦ (rest.0, acct ∷ rest.1)
      | some a ↦ if listed a.backend active then rest else (acct.id ∷ rest.0, acct ∷ rest.1)
    ]

-- Round-robin across backends.
unfoldable pub round_robin :
    List String → ℕ → List Account → Map BulkAssignEntry → Map BulkAssignEntry
round_robin backends i [] entries = entries
round_robin backends i (acct ∷ accounts) entries = round_robin backends (i + 1) accounts (
    Maps.put acct.id
      (record {
        backend = get_or "" (get_elem? backends (i % length backends));
        weight = acct.weight;
      })
      entries)

-- `byBackend[backend] = append(byBackend[backend], routingKey)`
unfoldable pub by_backend : Map String → Map (List String) → Map (List String)
by_backend [] groups = groups
by_backend ((key, backend) ∷ assigned) groups =
    by_backend assigned (Maps.put backend (get_or [] (Maps.get backend groups) ++ key ∷ []) groups)

unfoldable pub delete_stale : List String → List Action
delete_stale [] = []
delete_stale (key ∷ keys) = bulk_delete (key ∷ keys) ∷ []

-- The assignment of the accounts, with the hooks if there are any; `answer` is what `BulkAssign`
-- answers, with or without an error.
unfoldable pub assign_accounts :
    Bool → List String → (Map BulkAssignEntry → Map String) → List Account → List Action
unfolding round_robin by_backend
assign_accounts hooks backends answer [] = []
assign_accounts hooks backends answer (acct ∷ accounts) =
    let entries = round_robin backends 0 (acct ∷ accounts) [] in
    bulk_assign entries
    ∷ (if hooks then map (λ g. send_assign g.0 g.1) (by_backend (answer entries) []) else [])

-- `none` is an error of the source or of `GetAllAssignments`.
unfoldable pub reconcile :
    Bool
    → (Map BulkAssignEntry → Map String)
    → Option (List Account)
    → Option (Map Assignment)
    → Listing
    → List Action
unfolding split delete_stale assign_accounts
reconcile hooks answer none current active = []
reconcile hooks answer (some accounts) none active = []
reconcile hooks answer (some accounts) (some current) failed = []
reconcile hooks answer (some accounts) (some current) (listing []) = []
reconcile hooks answer (some accounts) (some current) (listing (b ∷ bs)) =
    let backends = sort (b ∷ bs) in
    let (stale_keys, unassigned) = split current backends accounts in
    delete_stale stale_keys ++ assign_accounts hooks backends answer unassigned
