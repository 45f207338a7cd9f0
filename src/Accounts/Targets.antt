-- ===== src/Accounts/Targets.antt =====
-- Which accounts a reconcile of internal/proxy/discovery.go assigns, and where.
use sticky_proxy.Prelude.{
  ℕ, ◌+◌, ◌%◌, ◌<◌, ◌≡◌, ◌≢◌, ◌∙◌, refl, sym, ap, String, Bool, true, false, not, ◌&&◌, ◌||◌,
  Option, none, some, List, [], ◌∷◌, ◌++◌, length, get_elem?, get_elem?_of_lt, All, listed, get_or,
  map, arith,
}
use sticky_proxy.Prelude.Sort.{sort}
use sticky_proxy.Maps
use sticky_proxy.Maps.{Map}
use sticky_proxy.Assignment.{Assignment, BulkAssignEntry}
use sticky_proxy.Hashing.{listing}
use sticky_proxy.Hashing.Stable.{listed-sort, length-sort, get_elem?-listed}
use sticky_proxy.Accounts.{
  Account, Action, bulk_delete, bulk_assign, send_assign, split, round_robin, by_backend,
  delete_stale, assign_accounts, reconcile,
}

abbrev lacks : Option Assignment → List String → Bool
lacks none active = true
lacks (some a) active = not (listed a.backend active)

-- Whether an account has no assignment to an active backend.
unfoldable pub needs : Map Assignment → List String → String → Bool
needs current active id = lacks (Maps.get id current) active

abbrev pub ids : List Account → List String
ids = map (λ a. a.id)

-- What the actions ask `BulkAssign` and `BulkDeleteAssignments` for.
unfoldable pub entries_of : List Action → Map BulkAssignEntry
entries_of [] = []
entries_of (bulk_delete keys ∷ actions) = entries_of actions
entries_of (bulk_assign entries ∷ actions) = entries
entries_of (send_assign b keys ∷ actions) = entries_of actions

unfoldable pub deleted_of : List Action → List String
deleted_of [] = []
deleted_of (bulk_delete keys ∷ actions) = keys
deleted_of (bulk_assign entries ∷ actions) = deleted_of actions
deleted_of (send_assign b keys ∷ actions) = deleted_of actions

split-needs :
    (current : Map Assignment) (active : List String) (accounts : List Account) (id : String)
    → listed id (ids (split current active accounts).1)
      ≡ listed id (ids accounts) && needs current active id
unfolding split needs listed
split-needs current active [] id = refl
split-needs current active (acct ∷ accounts) id =
    ground (arith, split-needs current active accounts id)

split-stale :
    (current : Map Assignment) (active : List String) (accounts : List Account) (id : String)
    → listed id (split current active accounts).0
      ≡ listed id (ids accounts) && (Maps.has id current && needs current active id)
unfolding split needs listed Maps.has
split-stale current active [] id = refl
split-stale current active (acct ∷ accounts) id =
    ground (arith, split-stale current active accounts id)

round_robin-has :
    (backends : List String) (i : ℕ) (accounts : List Account) (m : Map BulkAssignEntry)
    (id : String)
    → Maps.has id (round_robin backends i accounts m) ≡ listed id (ids accounts) || Maps.has id m
unfolding round_robin listed
round_robin-has backends i [] m id = refl
round_robin-has backends i (acct ∷ accounts) m id =
    let e : BulkAssignEntry = record {
      backend = get_or "" (get_elem? backends (i % length backends));
      weight = acct.weight;
    } in
    ground (
      arith,
      round_robin-has backends (i + 1) accounts (Maps.put acct.id e m) id,
      Maps.has-put acct.id id e m,
    )

round_robin-listed :
    (xs : List String) (i : ℕ) (accounts : List Account) (m : Map BulkAssignEntry)
    → 0 < length xs
    → All (λ e. listed e.1.backend xs ≡ true) m
    → All (λ e. listed e.1.backend xs ≡ true) (round_robin xs i accounts m)
unfolding round_robin
round_robin-listed xs i [] m pos h = h
round_robin-listed xs i (acct ∷ accounts) m pos h =
    let (x, e) = get_elem?_of_lt xs (i % length xs) (grind arith) in
    round_robin-listed xs (i + 1) accounts _ pos (
      Maps.put-All (λ e. listed e.1.backend xs ≡ true) acct.id _ m h
        (rw e (get_elem?-listed xs _ x e)))

-- The keys that an action list asks for are those of its first such action.
assign_accounts-has :
    (hooks : Bool) (answer : Map BulkAssignEntry → Map String) (xs : List String)
    (accounts : List Account) (id : String)
    → Maps.has id (entries_of (assign_accounts hooks xs answer accounts)) ≡ listed id (ids accounts)
unfolding assign_accounts entries_of Maps.has Maps.get listed
assign_accounts-has hooks answer xs [] id = refl
assign_accounts-has hooks answer xs (acct ∷ accounts) id =
    ground (arith, round_robin-has xs 0 (acct ∷ accounts) [] id)

assign_accounts-listed :
    (hooks : Bool) (answer : Map BulkAssignEntry → Map String) (xs : List String)
    (accounts : List Account)
    → 0 < length xs
    → All
        (λ e. listed e.1.backend xs ≡ true)
        (entries_of (assign_accounts hooks xs answer accounts))
unfolding assign_accounts entries_of
assign_accounts-listed hooks answer xs [] pos = tt
assign_accounts-listed hooks answer xs (acct ∷ accounts) pos =
    round_robin-listed xs 0 (acct ∷ accounts) [] pos tt

entries_of-delete_stale :
    (keys : List String) (actions : List Action)
    → entries_of (delete_stale keys ++ actions) ≡ entries_of actions
unfolding entries_of delete_stale
entries_of-delete_stale [] actions = refl
entries_of-delete_stale (k ∷ keys) actions = refl

lacks-sort : (o : Option Assignment) (bs : List String) → lacks o (sort bs) ≡ lacks o bs
lacks-sort none bs = refl
lacks-sort (some a) bs = ap not (listed-sort a.backend bs)

needs-sort :
    (current : Map Assignment) (bs : List String) (id : String)
    → needs current (sort bs) id ≡ needs current bs id
unfolding needs
needs-sort current bs id = lacks-sort (Maps.get id current) bs

-- When the source and the store answer and a backend is active, a reconcile asks to assign exactly the
-- accounts that have no assignment to an active backend, each to an active backend.
pub reconcile-needs :
    (hooks : Bool) (answer : Map BulkAssignEntry → Map String) (accounts : List Account)
    (current : Map Assignment) (active : List String) (id : String)
    → active ≢ []
    → let entries =
        entries_of (reconcile hooks answer (some accounts) (some current) (listing active)) in
      (Maps.has id entries ≡ listed id (ids accounts) && needs current active id)
      × ((e : BulkAssignEntry) → Maps.get id entries ≡ some e → listed e.backend active ≡ true)
unfolding reconcile
reconcile-needs hooks answer accounts current [] id ne = absurd (ne refl)
reconcile-needs hooks answer accounts current (b ∷ bs) id ne =
    let xs = sort (b ∷ bs) in
    let parts = split current xs accounts in
    let gone = entries_of-delete_stale parts.0 (assign_accounts hooks xs answer parts.1) in
    (
      ap (Maps.has id) gone
          ∙ assign_accounts-has hooks answer xs parts.1 id
          ∙ split-needs current xs accounts id
          ∙ ap (λ x. listed id (ids accounts) && x) (needs-sort current (b ∷ bs) id),
      λ e h.
          sym (listed-sort e.backend (b ∷ bs))
          ∙ Maps.get-All (λ e. listed e.1.backend xs ≡ true) id e _
              (assign_accounts-listed hooks answer xs parts.1 (omega (arith, length-sort (b ∷ bs))))
              (sym (ap (Maps.get id) gone) ∙ h),
    )

deleted_of-assign_accounts :
    (hooks : Bool) (answer : Map BulkAssignEntry → Map String) (xs : List String)
    (accounts : List Account)
    → deleted_of (assign_accounts hooks xs answer accounts) ≡ []
unfolding assign_accounts deleted_of
deleted_of-assign_accounts hooks answer xs [] = refl
deleted_of-assign_accounts false answer xs (acct ∷ accounts) = refl
deleted_of-assign_accounts true answer xs (acct ∷ accounts) =
    sends (by_backend (answer (round_robin xs 0 (acct ∷ accounts) [])) [])
  where
    sends : (groups : Map (List String)) → deleted_of (map (λ g. send_assign g.0 g.1) groups) ≡ []
    sends [] = refl
    sends (g ∷ groups) = sends groups

deleted_of-delete_stale :
    (keys : List String) (actions : List Action)
    → deleted_of actions ≡ []
    → deleted_of (delete_stale keys ++ actions) ≡ keys
unfolding deleted_of delete_stale
deleted_of-delete_stale [] actions h = h
deleted_of-delete_stale (k ∷ keys) actions h = refl

-- In the same case, the assignments that it asks to delete are exactly those of discovered accounts to
-- backends that are not active.
pub reconcile-deleted_of :
    (hooks : Bool) (answer : Map BulkAssignEntry → Map String) (accounts : List Account)
    (current : Map Assignment) (active : List String) (id : String)
    → active ≢ []
    → listed id
        (deleted_of (reconcile hooks answer (some accounts) (some current) (listing active)))
      ≡ listed id (ids accounts) && (Maps.has id current && needs current active id)
unfolding reconcile
reconcile-deleted_of hooks answer accounts current [] id ne = absurd (ne refl)
reconcile-deleted_of hooks answer accounts current (b ∷ bs) id ne =
    let xs = sort (b ∷ bs) in
    let parts = split current xs accounts in
    ap (listed id) (
      deleted_of-delete_stale parts.0 (assign_accounts hooks xs answer parts.1)
        (deleted_of-assign_accounts hooks answer xs parts.1))
    ∙ split-stale current xs accounts id
    ∙ ap (λ x. listed id (ids accounts) && (Maps.has id current && x))
        (needs-sort current (b ∷ bs) id)
