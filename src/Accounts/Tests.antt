-- ===== src/Accounts/Tests.antt =====
-- A reconcile of three accounts, and the theorems about it.
use sticky_proxy.Prelude.{
  ◌≡◌, refl, String, true, ◌&&◌, some, List, [], ◌∷◌, listed, map, str_dec, str_leb,
}
use sticky_proxy.Prelude.Int.{pos}
use sticky_proxy.Prelude.Sort.{sort}
use sticky_proxy.Maps
use sticky_proxy.Maps.{Map}
use sticky_proxy.Assignment.{Assignment, BulkAssignEntry}
use sticky_proxy.Hashing.{listing}
use sticky_proxy.Accounts.{Account, bulk_delete, bulk_assign, send_assign, reconcile}
use sticky_proxy.Accounts.Targets.{needs, ids, entries_of, reconcile-needs}

abbrev found : List Account
found =
    record { id = "alice"; weight = pos 1 }
    ∷ record { id = "bob"; weight = pos 2 }
    ∷ record { id = "carol"; weight = pos 0 }
    ∷ []

abbrev on : String → Assignment
on backend = record { backend = backend; assigned_at = 0; source = "table"; weight = pos 1 }

abbrev current : Map Assignment
current = ("alice", on "b1") ∷ ("bob", on "gone") ∷ []

abbrev answer : Map BulkAssignEntry → Map String
answer = map (λ e. (e.0, e.1.backend))

abbrev active : List String
active = "b2" ∷ "b1" ∷ []

asks :
    reconcile true answer (some found) (some current) (listing active)
    ≡ bulk_delete ("bob" ∷ [])
      ∷ bulk_assign (
          ("bob", record { backend = "b1"; weight = pos 2 })
          ∷ ("carol", record { backend = "b2"; weight = pos 0 })
          ∷ [])
      ∷ send_assign "b1" ("bob" ∷ [])
      ∷ send_assign "b2" ("carol" ∷ [])
      ∷ []
unfolding reconcile Maps.get Maps.put str_dec listed sort str_leb
asks = refl

reconcile-needs_example :
    (Maps.has "bob"
        (entries_of (reconcile true answer (some found) (some current) (listing active)))
      ≡ listed "bob" (ids found) && needs current active "bob")
    × ((e : BulkAssignEntry)
        → Maps.get "bob"
            (entries_of (reconcile true answer (some found) (some current) (listing active)))
          ≡ some e
        → listed e.backend active ≡ true)
reconcile-needs_example = reconcile-needs true answer found current active "bob" (λ e. cc)
