-- ===== src/Table/Repeats.antt =====
-- A bulk deletion that names keys more than once (`BulkDeleteAssignments` of internal/proxy/redis.go).
use sticky_proxy.Prelude.{
  ℕ, ◌+◌, ◌≤◌, ◌≡◌, ◌≢◌, refl, ap, sym, ◌∙◌, String, Bool, true, false, Option, none, some, List,
  [], ◌∷◌, listed, str_dec, ite, if_pos, if_neg, Bool-cases, inl, inr, if◌then◌else◌, arith,
}
use sticky_proxy.Maps
use sticky_proxy.Maps.{Map}
use sticky_proxy.Assignment.{Assignment, effective_weight}
use sticky_proxy.Table.{
  Table, count_of, Pipe, done, unanswered, refused, counted, present, delete_keys, bulk_delete,
}
use sticky_proxy.Table.Weights.{
  sum_of, load, tally-decr, get-delete_keys, get-delete_keys-listed, load-del,
}
use sticky_proxy.Table.Matching.{Matches}

-- The weight on a backend of one assignment.
abbrev pub weight_on : String → Option Assignment → ℕ
weight_on b none = 0
weight_on b (some a) = ite (str_dec a.backend b) (effective_weight a) 0

-- The weights on a backend of the named keys, each as often as it is named again later.
unfoldable pub repeats : String → List String → Map Assignment → ℕ
repeats b [] m = 0
repeats b (k ∷ ks) m =
    let rest = repeats b ks m in if listed k ks then weight_on b (Maps.get k m) + rest else rest

unfoldable pub is_repeated : String → List String → Bool
is_repeated key [] = false
is_repeated key (k ∷ ks) = let rest = is_repeated key ks in ite (str_dec k key) (listed key ks) rest

counted-sum :
    (b : String) (o : Option Assignment) (ps : List (String × ℕ))
    → sum_of b (counted o ps) ≡ weight_on b o + sum_of b ps
unfolding sum_of
counted-sum b none ps = omega arith
counted-sum b (some a) ps = refl

del-load :
    (b k : String) (m : Map Assignment)
    → Maps.Distinct m
    → (o : Option Assignment) → Maps.get k m ≡ o
    → load b (Maps.del k m) + weight_on b o ≡ load b m
del-load b k m d none e = ap (λ x. load b x + 0) (Maps.del_absent k m e) ∙ omega arith
del-load b k m d (some a) e = load-del b k a m d e

-- What is left and what is counted as deleted exceed the load by the repeated weights.
delete_keys-repeats :
    (b : String) (ks : List String) (m : Map Assignment)
    → Maps.Distinct m
    → Maps.Distinct (delete_keys ks m)
      × (load b (delete_keys ks m) + sum_of b (present ks m) ≡ load b m + repeats b ks m)
unfolding delete_keys present repeats
delete_keys-repeats b [] m d = (d, unfold sum_of in omega arith)
delete_keys-repeats b (k ∷ ks) m d =
    let ih = delete_keys-repeats b ks m d in
    let c = counted-sum b (Maps.get k m) (present ks m) in
    (
      Maps.del-Distinct k (delete_keys ks m) ih.0,
      elim (Bool-cases (listed k ks)) [
        | inl e ↦
            let same =
              ap (load b)
                (Maps.del_absent k (delete_keys ks m) (get-delete_keys-listed k ks m e)) in
            rw e (omega (arith, ih.1, c, same))
        | inr e ↦
            let kept = get-delete_keys k ks m e in
            rw e (omega (arith, ih.1, c, del-load b k (delete_keys ks m) ih.0 (Maps.get k m) kept))
      ],
    )

-- A repeated key counts at least once.
repeats-le :
    (key : String) (a : Assignment) (ks : List String) (m : Map Assignment)
    → Maps.get key m ≡ some a
    → is_repeated key ks ≡ true
    → effective_weight a ≤ repeats a.backend ks m
unfolding repeats is_repeated
repeats-le key a [] m e h = absurd (ground arith)
repeats-le key a (k ∷ ks) m e h = elim (str_dec k key) [
  | yes q ↦
      let again : listed key ks ≡ true = sym (if_pos (str_dec k key) q _ _) ∙ h in
      let own = if_pos (str_dec a.backend a.backend) refl (effective_weight a) 0 in
      let here : weight_on a.backend (Maps.get key m) ≡ effective_weight a =
        ap (weight_on a.backend) e ∙ own in
      rw (q, again) (omega (arith, here))
  | no ne ↦
      let rest = repeats-le key a ks m e (sym (if_neg (str_dec k key) ne _ _) ∙ h) in
      ground (arith, rest)
]

executed-repeats :
    (t : Table) (keys : List String) (b : String)
    → Matches t
    → let r = bulk_delete t keys done in
      (count_of b r.counts).added + repeats b keys t.assignments
      ≡ (count_of b r.counts).removed + load b r.assignments
unfolding bulk_delete
executed-repeats t keys b h =
    let c = tally-decr b (present keys t.assignments) t.counts in
    omega (arith, c.0, c.1, h.1 b, (delete_keys-repeats b keys t.assignments h.0).1)

-- A bulk deletion that names an assigned key more than once takes its weight away each time: if the counts
-- match the assignments and the deletion is executed, then afterwards the count of each backend is lower
-- than the weight of its assignments by the weights of the repeated keys, and the count of the backend of
-- that key is lower by at least the weight of the key.
pub bulk_delete_twice :
    (t : Table) (keys : List String) (pipe : Pipe) (key : String) (a : Assignment)
    → Matches t
    → pipe ≢ refused
    → Maps.get key t.assignments ≡ some a
    → is_repeated key keys ≡ true
    → let r = bulk_delete t keys pipe in
      ((b : String)
        → (count_of b r.counts).added + repeats b keys t.assignments
          ≡ (count_of b r.counts).removed + load b r.assignments)
      × ((count_of a.backend r.counts).added + effective_weight a
          ≤ (count_of a.backend r.counts).removed + load a.backend r.assignments)
unfolding bulk_delete
bulk_delete_twice t keys refused key a h ne e twice = absurd (ne refl)
bulk_delete_twice t keys done key a h ne e twice = (
  λ b. executed-repeats t keys b h,
  omega (arith, executed-repeats t keys a.backend h, repeats-le key a keys t.assignments e twice),
)
bulk_delete_twice t keys unanswered key a h ne e twice = (
  λ b. executed-repeats t keys b h,
  omega (arith, executed-repeats t keys a.backend h, repeats-le key a keys t.assignments e twice),
)
