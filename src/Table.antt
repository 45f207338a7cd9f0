-- ===== src/Table.antt =====
-- The assignment table in Redis, internal/proxy/redis.go: the hash of assignments and the hash with the
-- weight that each backend carries. The hash holds what these methods write, so that the JSON decodes. A
-- value that `HINCRBY` counts is kept as what was added and what was taken away. A pipeline runs as a
-- whole.
pub mod Weights
pub mod Matching
pub mod Repeats
mod Tests
use sticky_proxy.Prelude.{
  ℕ, ◌+◌, String, Bool, true, false, Option, none, some, List, [], ◌∷◌, if◌then◌else◌, str_dec, ite,
  get_or,
}
use sticky_proxy.Prelude.Int.{ℤ, pos}
use sticky_proxy.Maps
use sticky_proxy.Maps.{Map}
use sticky_proxy.Assignment.{Assignment, BulkAssignEntry, effective_weight, weight_or_one}

pub record Count : Type 0 where
  pub added : ℕ
  pub removed : ℕ

pub record Table : Type 0 where
  pub assignments : Map Assignment
  pub counts : Map Count

abbrev pub count_of : String → Map Count → Count
count_of b counts = get_or (record { added = 0; removed = 0 }) (Maps.get b counts)

-- `HIncrBy`, upwards and downwards
unfoldable pub incr : String → ℕ → Map Count → Map Count
incr b n counts = let c = count_of b counts in Maps.put b (record c { added = c.added + n }) counts

unfoldable pub decr : String → ℕ → Map Count → Map Count
decr b n counts =
    let c = count_of b counts in Maps.put b (record c { removed = c.removed + n }) counts

-- A pipeline is executed and answered, executed with its answer lost, or not executed.
pub data Pipe : Type 0 where
  done unanswered refused : Pipe

-- `counts[backend] += weight`
unfoldable pub tally : List (String × ℕ) → Map ℕ
tally [] = []
tally ((b, n) ∷ ps) = let m = tally ps in Maps.put b (get_or 0 (Maps.get b m) + n) m

unfoldable pub incr_all : Map ℕ → Map Count → Map Count
unfolding incr
incr_all [] counts = counts
incr_all ((b, n) ∷ m) counts = incr b n (incr_all m counts)

unfoldable pub decr_all : Map ℕ → Map Count → Map Count
unfolding decr
decr_all [] counts = counts
decr_all ((b, n) ∷ m) counts = decr b n (decr_all m counts)

-- The pipeline of `DeleteAssignment`, for the assignment that was found.
unfoldable pub delete_found : Table → String → Option Assignment → Pipe → Table
delete_found t key none pipe = t
delete_found t key (some a) refused = t
delete_found t key (some a) done = record {
  assignments = Maps.del key t.assignments;
  counts = decr a.backend (effective_weight a) t.counts;
}
delete_found t key (some a) unanswered = record {
  assignments = Maps.del key t.assignments;
  counts = decr a.backend (effective_weight a) t.counts;
}

unfoldable pub delete_assignment : Table → String → Pipe → Table
unfolding delete_found
delete_assignment t key pipe = delete_found t key (Maps.get key t.assignments) pipe

-- The backend and the weight of each assignment.
unfoldable pub weights : Map Assignment → List (String × ℕ)
weights [] = []
weights ((key, a) ∷ m) = (a.backend, effective_weight a) ∷ weights m

-- `ReconcileAssignmentCounts`
unfoldable pub reconcile : Table → Pipe → Table
unfolding tally incr_all weights
reconcile t refused = t
reconcile t done = record t { counts = incr_all (tally (weights t.assignments)) [] }
reconcile t unanswered = record t { counts = incr_all (tally (weights t.assignments)) [] }

abbrev pub value_of : BulkAssignEntry → ℕ → Assignment
value_of e now = record {
  backend = e.backend;
  assigned_at = now;
  source = "assignment";
  weight = pos (weight_or_one e.weight);
}

-- The `HSetNX` commands, and the entries that were new with their weights.
unfoldable pub set_new :
    ℕ → Map BulkAssignEntry → Map Assignment → Map Assignment × List (String × ℕ)
set_new now [] m = (m, [])
set_new now ((key, e) ∷ es) m =
    let rest = set_new now es m in
    if Maps.has key rest.0
    then rest
    else (Maps.put key (value_of e now) rest.0, (e.backend, weight_or_one e.weight) ∷ rest.1)

-- The counts of a `BulkAssign` whose assignments are set, if any is new.
unfoldable pub count_new : Table → List (String × ℕ) → Pipe → Pipe → Table
unfolding tally incr_all reconcile
count_new t [] second again = t
count_new t (n ∷ ns) done again = record t { counts = incr_all (tally (n ∷ ns)) t.counts }
count_new t (n ∷ ns) unanswered again =
    reconcile (record t { counts = incr_all (tally (n ∷ ns)) t.counts }) again
count_new t (n ∷ ns) refused again = reconcile t again

-- `BulkAssign`, with its two pipelines and that of the reconciliation
unfoldable pub bulk_assign : Table → ℕ → Map BulkAssignEntry → Pipe → Pipe → Pipe → Table
unfolding set_new count_new
bulk_assign t now entries refused second again = t
bulk_assign t now entries unanswered second again = record t {
  assignments = (set_new now entries t.assignments).0;
}
bulk_assign t now entries done second again =
    let (m, new) = set_new now entries t.assignments in
    count_new (record t { assignments = m }) new second again

abbrev pub counted : Option Assignment → List (String × ℕ) → List (String × ℕ)
counted none rest = rest
counted (some a) rest = (a.backend, effective_weight a) ∷ rest

-- The keys of a bulk deletion that are there, with their backends and weights.
unfoldable pub present : List String → Map Assignment → List (String × ℕ)
present [] m = []
present (key ∷ keys) m = counted (Maps.get key m) (present keys m)

unfoldable pub delete_keys : List String → Map Assignment → Map Assignment
delete_keys [] m = m
delete_keys (key ∷ keys) m = Maps.del key (delete_keys keys m)

-- `BulkDeleteAssignments`, with its second pipeline
unfoldable pub bulk_delete : Table → List String → Pipe → Table
unfolding present delete_keys tally decr_all
bulk_delete t keys refused = t
bulk_delete t keys done = record {
  assignments = delete_keys keys t.assignments;
  counts = decr_all (tally (present keys t.assignments)) t.counts;
}
bulk_delete t keys unanswered = record {
  assignments = delete_keys keys t.assignments;
  counts = decr_all (tally (present keys t.assignments)) t.counts;
}

-- A call of one of the methods, with the fate of its pipelines.
pub data Call : Type 0 where
  assigns : ℕ → Map BulkAssignEntry → Pipe → Pipe → Pipe → Call
  deletes : String → Pipe → Call
  deletes_all : List String → Pipe → Call
  reconciles : Pipe → Call

unfoldable pub step : Table → Call → Table
unfolding bulk_assign delete_assignment bulk_delete reconcile
step t (assigns now entries first second again) = bulk_assign t now entries first second again
step t (deletes key pipe) = delete_assignment t key pipe
step t (deletes_all keys pipe) = bulk_delete t keys pipe
step t (reconciles pipe) = reconcile t pipe

unfoldable pub run : Table → List Call → Table
run t [] = t
run t (c ∷ cs) = run (step t c) cs
