-- ===== src/MemoryStore.antt =====
-- internal/proxy/store_memory.go: the in-memory store of hash mode. Each method holds the mutex.
pub mod Sorted
mod Tests
use sticky_proxy.Prelude.{String, List, [], ◌∷◌, Bool, if◌then◌else◌, ℕ, Option}
use sticky_proxy.Prelude.Sort.{sort}
use sticky_proxy.Maps
use sticky_proxy.Maps.{Map}
use sticky_proxy.Assignment.{Assignment, BulkAssignEntry}

pub record MemoryStore : Type 0 where
  pub backends : Map (Unit {0})
  pub sorted : List String

unfoldable pub new : MemoryStore
new = record { backends = []; sorted = [] }

-- A result with an error; the memory store has one error, `errNotSupported`.
pub data Result {ℓ} (A : Type ℓ) : Type ℓ where
  ok : A → Result A
  not_supported : Result A

-- the assignment methods
unfoldable pub assign_least_loaded : MemoryStore → String → Result Assignment
assign_least_loaded s key = not_supported

unfoldable pub get_assignment : MemoryStore → String → Result Assignment
get_assignment s key = not_supported

unfoldable pub get_all_assignments : MemoryStore → Result (Map Assignment)
get_all_assignments s = not_supported

unfoldable pub get_backend_users : MemoryStore → String → Result (List String)
get_backend_users s backend = not_supported

unfoldable pub bulk_assign : MemoryStore → Map BulkAssignEntry → Result (Map String)
bulk_assign s entries = not_supported

unfoldable pub bulk_delete_assignments : MemoryStore → List String → Result (Unit {0})
bulk_delete_assignments s keys = not_supported

unfoldable pub rebuild_sorted : MemoryStore → MemoryStore
rebuild_sorted s = record s { sorted = sort (Maps.keys s.backends) }

unfoldable pub active_backends : MemoryStore → Result (List String)
active_backends s = ok s.sorted

unfoldable pub add_backend : MemoryStore → String → MemoryStore
unfolding rebuild_sorted
add_backend s backend =
    if Maps.has backend s.backends
    then s
    else rebuild_sorted (record s { backends = Maps.put backend tt s.backends })

unfoldable pub remove_backend : MemoryStore → String → MemoryStore
unfolding rebuild_sorted
remove_backend s backend = rebuild_sorted (record s { backends = Maps.del backend s.backends })

pub data Call : Type 0 where
  adds removes : String → Call

unfoldable pub step : MemoryStore → Call → MemoryStore
unfolding add_backend remove_backend
step s (adds b) = add_backend s b
step s (removes b) = remove_backend s b

unfoldable pub run : MemoryStore → List Call → MemoryStore
run s [] = s
run s (c ∷ cs) = run (step s c) cs
