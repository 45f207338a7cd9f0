-- ===== src/Table/Matching.antt =====
-- The counts of the backends against the assignments (internal/proxy/redis.go).
use sticky_proxy.Prelude.{ℕ, ◌+◌, ◌≡◌, refl, String, Option, none, some, List, [], ◌∷◌, All, arith}
use sticky_proxy.Maps
use sticky_proxy.Maps.{Map}
use sticky_proxy.Assignment.{Assignment, BulkAssignEntry, effective_weight}
use sticky_proxy.Table.{
  Table, count_of, Pipe, done, unanswered, refused, incr_all, tally, weights, delete_found,
  delete_assignment, reconcile, set_new, count_new, bulk_assign, present, bulk_delete, Call,
  assigns, deletes, deletes_all, reconciles, step, run,
}
use sticky_proxy.Table.Weights.{
  load, tally-incr, tally-decr, decr-count, load-del, set_new-load, NoRepeat, delete_keys-load,
}

-- No key twice, and the count of every backend is the weight of its assignments.
abbrev pub Matches : Table → Type 0
Matches t =
    Maps.Distinct t.assignments
    × ((b : String)
        → (count_of b t.counts).added ≡ (count_of b t.counts).removed + load b t.assignments)

reconciled-Matches :
    (m : Map Assignment)
    → Maps.Distinct m
    → Matches (record { assignments = m; counts = incr_all (tally (weights m)) [] })
unfolding Maps.get
reconciled-Matches m d = (d, λ b. let h = tally-incr b (weights m) [] in omega (arith, h.0, h.1))

-- What the calls need to keep the counts: new assignments are counted, or reconciled, and a bulk deletion
-- names no key twice.
abbrev pub Counts : Call → Type 0
Counts (assigns now es refused second again) = Unit
Counts (assigns now es unanswered second again) = ⊥
Counts (assigns now es done done again) = Unit
Counts (assigns now es done unanswered again) = Unit
Counts (assigns now es done refused done) = Unit
Counts (assigns now es done refused unanswered) = Unit
Counts (assigns now es done refused refused) = ⊥
Counts (deletes key pipe) = Unit
Counts (deletes_all keys pipe) = NoRepeat keys
Counts (reconciles pipe) = Unit

reconcile-Matches : (t : Table) (pipe : Pipe) → Matches t → Matches (reconcile t pipe)
unfolding reconcile
reconcile-Matches t done h = reconciled-Matches t.assignments h.0
reconcile-Matches t unanswered h = reconciled-Matches t.assignments h.0
reconcile-Matches t refused h = h

found-Matches :
    (t : Table) (key : String) (a : Assignment)
    → Maps.get key t.assignments ≡ some a
    → Matches t
    → Matches (delete_found t key (some a) done)
unfolding delete_found
found-Matches t key a e h = (
  Maps.del-Distinct key t.assignments h.0,
  λ b.
      let c = decr-count b a.backend (effective_weight a) t.counts in
      omega (arith, c.0, c.1, load-del b key a t.assignments h.0 e, h.1 b),
)

delete_found-Matches :
    (t : Table) (key : String) (o : Option Assignment) (pipe : Pipe)
    → Maps.get key t.assignments ≡ o
    → Matches t
    → Matches (delete_found t key o pipe)
unfolding delete_found
delete_found-Matches t key none pipe e h = h
delete_found-Matches t key (some a) refused e h = h
delete_found-Matches t key (some a) done e h = found-Matches t key a e h
delete_found-Matches t key (some a) unanswered e h = found-Matches t key a e h

delete_assignment-Matches :
    (t : Table) (key : String) (pipe : Pipe) → Matches t → Matches (delete_assignment t key pipe)
unfolding delete_assignment
delete_assignment-Matches t key pipe h =
    delete_found-Matches t key (Maps.get key t.assignments) pipe refl h

counted-Matches :
    (t : Table) (now : ℕ) (es : Map BulkAssignEntry)
    → Matches t
    → let (m, new) = set_new now es t.assignments in
      Matches (record { assignments = m; counts = incr_all (tally new) t.counts })
counted-Matches t now es h = (
  (set_new-load "" now es t.assignments h.0).0,
  λ b.
      let s = set_new-load b now es t.assignments h.0 in
      let c = tally-incr b (set_new now es t.assignments).1 t.counts in
      omega (arith, s.1, c.0, c.1, h.1 b),
)

-- The second pipeline, where there are new assignments; `m` has them.
count_new-Matches :
    (t : Table) (m : Map Assignment) (second again : Pipe) (new : List (String × ℕ))
    → Matches (record { assignments = m; counts = incr_all (tally new) t.counts })
    → Counts (assigns 0 [] done second again)
    → Matches (count_new (record t { assignments = m }) new second again)
unfolding count_new reconcile tally incr_all
count_new-Matches t m second again [] h c = h
count_new-Matches t m done again (n ∷ ns) h c = h
count_new-Matches t m unanswered done (n ∷ ns) h c = reconciled-Matches m h.0
count_new-Matches t m unanswered unanswered (n ∷ ns) h c = reconciled-Matches m h.0
count_new-Matches t m unanswered refused (n ∷ ns) h c = h
count_new-Matches t m refused done (n ∷ ns) h c = reconciled-Matches m h.0
count_new-Matches t m refused unanswered (n ∷ ns) h c = reconciled-Matches m h.0
count_new-Matches t m refused refused (n ∷ ns) h c = absurd c

bulk_assign-Matches :
    (t : Table) (now : ℕ) (es : Map BulkAssignEntry) (first second again : Pipe)
    → Counts (assigns now es first second again)
    → Matches t
    → Matches (bulk_assign t now es first second again)
unfolding bulk_assign
bulk_assign-Matches t now es refused second again c h = h
bulk_assign-Matches t now es unanswered second again c h = absurd c
bulk_assign-Matches t now es done done again c h =
    count_new-Matches t _ done again (set_new now es t.assignments).1 (counted-Matches t now es h)
      tt
bulk_assign-Matches t now es done unanswered again c h =
    count_new-Matches t _ unanswered again (set_new now es t.assignments).1
      (counted-Matches t now es h) tt
bulk_assign-Matches t now es done refused done c h =
    count_new-Matches t _ refused done (set_new now es t.assignments).1 (counted-Matches t now es h)
      tt
bulk_assign-Matches t now es done refused unanswered c h =
    count_new-Matches t _ refused unanswered (set_new now es t.assignments).1
      (counted-Matches t now es h) tt
bulk_assign-Matches t now es done refused refused c h = absurd c

deleted-Matches :
    (t : Table) (keys : List String) → NoRepeat keys → Matches t → Matches (bulk_delete t keys done)
unfolding bulk_delete
deleted-Matches t keys n h = (
  (delete_keys-load "" keys t.assignments h.0 n).0,
  λ b.
      let s = delete_keys-load b keys t.assignments h.0 n in
      let c = tally-decr b (present keys t.assignments) t.counts in
      omega (arith, s.1, c.0, c.1, h.1 b),
)

bulk_delete-Matches :
    (t : Table) (keys : List String) (pipe : Pipe)
    → NoRepeat keys
    → Matches t
    → Matches (bulk_delete t keys pipe)
unfolding bulk_delete
bulk_delete-Matches t keys done n h = deleted-Matches t keys n h
bulk_delete-Matches t keys unanswered n h = deleted-Matches t keys n h
bulk_delete-Matches t keys refused n h = h

step-Matches : (t : Table) (c : Call) → Counts c → Matches t → Matches (step t c)
unfolding step
step-Matches t (assigns now es first second again) c h =
    bulk_assign-Matches t now es first second again c h
step-Matches t (deletes key pipe) c h = delete_assignment-Matches t key pipe h
step-Matches t (deletes_all keys pipe) c h = bulk_delete-Matches t keys pipe c h
step-Matches t (reconciles pipe) c h = reconcile-Matches t pipe h

-- Bulk assignments, deletions and reconciliations, in any order, keep the count of every backend equal to
-- the weight of its assignments, as long as no bulk deletion names a key twice, no answer to a pipeline
-- that sets assignments is lost, and counts that were refused are reconciled.
pub run-Matches : (t : Table) (cs : List Call) → All Counts cs → Matches t → Matches (run t cs)
unfolding run
run-Matches t [] s h = h
run-Matches t (c ∷ cs) s h = run-Matches (step t c) cs s.1 (step-Matches t c s.0 h)
