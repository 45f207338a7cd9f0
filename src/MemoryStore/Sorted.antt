-- ===== src/MemoryStore/Sorted.antt =====
-- What `ActiveBackends` of internal/proxy/store_memory.go returns after any calls.
use mathlib.Core.List.{Perm}
use sticky_proxy.Prelude.{
  ◌≡◌, refl, ◌∙◌, sym, ap, String, Bool, true, false, List, [], ◌∷◌, str_dec, ite, arith,
  Bool-cases, inl, inr, listed,
}
use sticky_proxy.Prelude.Sort.{sort, sort-eq_of_perm}
use sticky_proxy.Hashing.Stable.{listed-sort}
use sticky_proxy.Maps
use sticky_proxy.Maps.{Map}
use sticky_proxy.MemoryStore.{MemoryStore, ok, new, active_backends, Call, adds, removes, step, run}

-- The invariant that `rebuildSorted` restores, over distinct keys.
pub record IsValid (s : MemoryStore) : Type 0 where
  pub sorted : s.sorted ≡ sort (Maps.keys s.backends)
  pub distinct : Maps.Distinct s.backends

pub new-IsValid : IsValid new
unfolding new sort
new-IsValid = record { sorted = refl; distinct = tt }

pub step-IsValid : (s : MemoryStore) (c : Call) → IsValid s → IsValid (step s c)
unfolding step
step-IsValid s (adds b) v = elim (Bool-cases (Maps.has b s.backends)) [
  | inl e ↦ rw e v
  | inr e ↦ rw e (record { sorted = refl; distinct = Maps.put-Distinct b tt s.backends v.distinct })
]
step-IsValid s (removes b) v = record {
  sorted = refl;
  distinct = Maps.del-Distinct b s.backends v.distinct;
}

pub run-IsValid : (s : MemoryStore) (cs : List Call) → IsValid s → IsValid (run s cs)
unfolding run
run-IsValid s [] v = v
run-IsValid s (c ∷ cs) v = run-IsValid (step s c) cs (step-IsValid s c v)

-- The last call about the backend decides.
unfoldable pub is_member : String → Bool → List Call → Bool
is_member b now [] = now
is_member b now (adds c ∷ cs) = is_member b (ite (str_dec c b) true now) cs
is_member b now (removes c ∷ cs) = is_member b (ite (str_dec c b) false now) cs

has-step-adds :
    (s : MemoryStore) (b c : String)
    → Maps.has b (step s (adds c)).backends ≡ ite (str_dec c b) true (Maps.has b s.backends)
unfolding step
has-step-adds s b c = ground (arith, Maps.has-put c b tt s.backends)

has-run :
    (s : MemoryStore) (b : String) (cs : List Call)
    → Maps.has b (run s cs).backends ≡ is_member b (Maps.has b s.backends) cs
unfolding run is_member
has-run s b [] = refl
has-run s b (adds c ∷ cs) =
    has-run (step s (adds c)) b cs ∙ ap (λ x. is_member b x cs) (has-step-adds s b c)
has-run s b (removes c ∷ cs) =
    has-run (step s (removes c)) b cs
    ∙ ap (λ x. is_member b x cs) (unfold step in Maps.has-del c b s.backends)

-- After any calls `ActiveBackends` returns exactly the backends whose last call was `AddBackend`, in
-- the order that `sort.Strings` gives, whatever the order in which the map is iterated.
pub active_backends-run :
    (cs : List Call) (range : List String)
    → Perm range (Maps.keys (run new cs).backends)
    → (active_backends (run new cs) ≡ ok (sort range))
      × ((b : String) → listed b (sort range) ≡ is_member b false cs)
unfolding active_backends
active_backends-run cs range p =
    let same = sort-eq_of_perm p in
    let v = run-IsValid new cs new-IsValid in
    (
      ap ok (v.sorted ∙ sym same),
      λ b.
          ap (listed b) same
          ∙ listed-sort b (Maps.keys (run new cs).backends)
          ∙ Maps.listed-keys b (run new cs).backends
          ∙ (unfold new Maps.has Maps.get in has-run new b cs),
    )
