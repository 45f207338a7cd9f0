-- ===== src/Table/Tests.antt =====
-- Two users on one backend.
use sticky_proxy.Prelude.{
  ◌+◌, ◌≤◌, ◌≡◌, refl, String, true, some, List, [], ◌∷◌, All, str_dec, listed, arith,
}
use sticky_proxy.Prelude.Int.{pos, negsuc}
use sticky_proxy.Maps
use sticky_proxy.Maps.{Map}
use sticky_proxy.Assignment.{Assignment, BulkAssignEntry, effective_weight, weight_or_one}
use sticky_proxy.Table.{
  Table, count_of, done, unanswered, refused, incr, decr, incr_all, decr_all, tally, weights,
  bulk_assign, set_new, count_new, reconcile, bulk_delete, present, delete_keys, Call, assigns,
  deletes, deletes_all, step, run, delete_assignment, delete_found,
}
use sticky_proxy.Table.Weights.{load, sum_of}
use sticky_proxy.Table.Matching.{Matches, Counts, run-Matches}
use sticky_proxy.Table.Repeats.{repeats, is_repeated, bulk_delete_twice}

abbrev entries : Map BulkAssignEntry
entries =
    ("alice", record { backend = "http://a"; weight = pos 3 })
    ∷ ("bob", record { backend = "http://a"; weight = negsuc 1 })
    ∷ []

abbrev empty : Table
empty = record { assignments = []; counts = [] }

abbrev calls : List Call
calls =
    assigns 5 entries done refused done
    ∷ deletes "bob" done
    ∷ deletes_all ("bob" ∷ ("carol" ∷ [])) done
    ∷ assigns 6 entries done done refused
    ∷ []

counted : count_of "http://a" (run empty calls).counts ≡ record { added = 5; removed = 1 }
unfolding run step bulk_assign set_new count_new reconcile delete_assignment delete_found
    bulk_delete present delete_keys tally incr_all decr_all incr decr weights effective_weight
    weight_or_one Maps.get Maps.put Maps.del Maps.has str_dec
counted = refl

empty-Matches : Matches empty
unfolding sum_of weights Maps.get
empty-Matches = (tt, λ b. refl)

no_repeat : All Counts calls
unfolding listed str_dec
no_repeat = (tt, (tt, ((refl, (refl, tt)), (tt, tt))))

run-Matches_example : Matches (run empty calls)
run-Matches_example = run-Matches empty calls no_repeat empty-Matches

abbrev alice : Assignment
alice = record { backend = "http://a"; assigned_at = 6; source = "assignment"; weight = pos 3 }

abbrev full : Table
full = record {
  assignments = ("alice", alice) ∷ [];
  counts = ("http://a", record { added = 3; removed = 0 }) ∷ [];
}

full-Matches : Matches full
unfolding sum_of weights Maps.get effective_weight weight_or_one
full-Matches = ((refl, tt), λ b. ground (arith, str_dec "http://a" b))

found : Maps.get "alice" full.assignments ≡ some alice
unfolding Maps.get str_dec
found = refl

abbrev named : List String
named = "alice" ∷ ("carol" ∷ ("alice" ∷ []))

named_twice : is_repeated "alice" named ≡ true
unfolding is_repeated listed str_dec
named_twice = refl

bulk_delete_twice_example :
    let r = bulk_delete full named unanswered in
    ((b : String)
      → (count_of b r.counts).added + repeats b named full.assignments
        ≡ (count_of b r.counts).removed + load b r.assignments)
    × ((count_of "http://a" r.counts).added + effective_weight alice
        ≤ (count_of "http://a" r.counts).removed + load "http://a" r.assignments)
bulk_delete_twice_example =
    bulk_delete_twice full named unanswered "alice" alice full-Matches (λ e. absurd (ground arith))
      found named_twice
