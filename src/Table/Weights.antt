-- ===== src/Table/Weights.antt =====
-- The weight on each backend: what the assignments carry, and what the counting commands of
-- internal/proxy/redis.go make of it.
use sticky_proxy.Prelude.{
  true, ℕ, zero, suc, subst, if_pos, if_neg, ◌+◌, ◌≡◌, refl, ap, ◌∙◌, sym, String, false, Option,
  none, some, List, [], ◌∷◌, str_dec, ite, get_or, listed, Bool-cases, inl, inr, arith,
}
use sticky_proxy.Prelude.Int.{ℤ, pos, negsuc}
use sticky_proxy.Maps
use sticky_proxy.Maps.{Map}
use sticky_proxy.Assignment.{Assignment, BulkAssignEntry, effective_weight, weight_or_one}
use sticky_proxy.Table.{
  Count, count_of, incr, decr, tally, incr_all, decr_all, weights, value_of, set_new, counted,
  present, delete_keys,
}

-- The sum of the weights on one backend.
unfoldable pub sum_of : String → List (String × ℕ) → ℕ
sum_of b [] = 0
sum_of b ((c, n) ∷ ps) = ite (str_dec c b) n 0 + sum_of b ps

abbrev pub load : String → Map Assignment → ℕ
load b m = sum_of b (weights m)

tally-sum : (b : String) (ps : List (String × ℕ)) → get_or 0 (Maps.get b (tally ps)) ≡ sum_of b ps
unfolding tally sum_of Maps.get
tally-sum b [] = refl
tally-sum b ((c, n) ∷ ps) = ground (
  arith,
  tally-sum b ps,
  Maps.get-put c b (get_or 0 (Maps.get c (tally ps)) + n) (tally ps),
  ap (λ x. get_or 0 (Maps.get x (tally ps))),
)

tally-Distinct : (ps : List (String × ℕ)) → Maps.Distinct (tally ps)
unfolding tally
tally-Distinct [] = tt
tally-Distinct ((c, n) ∷ ps) =
    Maps.put-Distinct c (get_or 0 (Maps.get c (tally ps)) + n) (tally ps) (tally-Distinct ps)

-- One counting command, as the backend `b` sees it.
incr-count :
    (b k : String) (n : ℕ) (c : Map Count)
    → ((count_of b (incr k n c)).added ≡ (count_of b c).added + ite (str_dec k b) n 0)
      × ((count_of b (incr k n c)).removed ≡ (count_of b c).removed)
unfolding incr
incr-count b k n c = elim (str_dec k b) [
  | yes e ↦
      subst
        (λ x.
          ((count_of x (incr k n c)).added ≡ (count_of x c).added + ite (str_dec k x) n 0)
          × ((count_of x (incr k n c)).removed ≡ (count_of x c).removed))
        e (simp (Maps.get-put_self) (ground arith, refl))
  | no e ↦
      simp (Maps.get-put_ne k b (record (count_of k c) { added = (count_of k c).added + n }) c e)
        (ground arith, refl)
]

pub decr-count :
    (b k : String) (n : ℕ) (c : Map Count)
    → ((count_of b (decr k n c)).added ≡ (count_of b c).added)
      × ((count_of b (decr k n c)).removed ≡ (count_of b c).removed + ite (str_dec k b) n 0)
unfolding decr
decr-count b k n c = elim (str_dec k b) [
  | yes e ↦
      subst
        (λ x.
          ((count_of x (decr k n c)).added ≡ (count_of x c).added)
          × ((count_of x (decr k n c)).removed ≡ (count_of x c).removed + ite (str_dec k x) n 0))
        e (simp (Maps.get-put_self) (refl, ground arith))
  | no e ↦
      simp
        (Maps.get-put_ne k b (record (count_of k c) { removed = (count_of k c).removed + n }) c e)
        (refl, ground arith)
]

-- The first entry and the others of a tally without a repeated backend.
get-head_tail :
    (b k : String) (n : ℕ) (m : Map ℕ)
    → Maps.get k m ≡ none
    → get_or 0 (Maps.get b ((k, n) ∷ m)) ≡ ite (str_dec k b) n 0 + get_or 0 (Maps.get b m)
unfolding Maps.get
get-head_tail b k n m h = ground (arith, ap (λ x. get_or 0 (Maps.get x m)))

incr_all-count :
    (b : String) (m : Map ℕ) (c : Map Count)
    → Maps.Distinct m
    → ((count_of b (incr_all m c)).added ≡ (count_of b c).added + get_or 0 (Maps.get b m))
      × ((count_of b (incr_all m c)).removed ≡ (count_of b c).removed)
unfolding incr_all
incr_all-count b [] c d = (unfold Maps.get in omega arith, refl)
incr_all-count b ((k, n) ∷ m) c d =
    let ih = incr_all-count b m c d.1 in
    let here = incr-count b k n (incr_all m c) in
    (omega (arith, ih.0, here.0, get-head_tail b k n m d.0), here.1 ∙ ih.1)

decr_all-count :
    (b : String) (m : Map ℕ) (c : Map Count)
    → Maps.Distinct m
    → ((count_of b (decr_all m c)).added ≡ (count_of b c).added)
      × ((count_of b (decr_all m c)).removed ≡ (count_of b c).removed + get_or 0 (Maps.get b m))
unfolding decr_all
decr_all-count b [] c d = (refl, unfold Maps.get in omega arith)
decr_all-count b ((k, n) ∷ m) c d =
    let ih = decr_all-count b m c d.1 in
    let here = decr-count b k n (decr_all m c) in
    (here.0 ∙ ih.0, omega (arith, ih.1, here.1, get-head_tail b k n m d.0))

-- What a tally counts.
pub tally-incr :
    (b : String) (ps : List (String × ℕ)) (c : Map Count)
    → ((count_of b (incr_all (tally ps) c)).added ≡ (count_of b c).added + sum_of b ps)
      × ((count_of b (incr_all (tally ps) c)).removed ≡ (count_of b c).removed)
tally-incr b ps c = rw⁻¹ (tally-sum b ps) (incr_all-count b (tally ps) c (tally-Distinct ps))

pub tally-decr :
    (b : String) (ps : List (String × ℕ)) (c : Map Count)
    → ((count_of b (decr_all (tally ps) c)).added ≡ (count_of b c).added)
      × ((count_of b (decr_all (tally ps) c)).removed ≡ (count_of b c).removed + sum_of b ps)
tally-decr b ps c = rw⁻¹ (tally-sum b ps) (decr_all-count b (tally ps) c (tally-Distinct ps))

-- The load after a new assignment, and before a deleted one.
pub load-put_new :
    (b k : String) (a : Assignment) (m : Map Assignment)
    → Maps.get k m ≡ none
    → load b (Maps.put k a m) ≡ load b m + ite (str_dec a.backend b) (effective_weight a) 0
unfolding weights sum_of Maps.get Maps.put
load-put_new b k a [] h = omega arith
load-put_new b k a (e ∷ m) h = ground (arith, load-put_new b k a m)

value_eq : (x y : Assignment) → some x ≡ some y → x ≡ y
value_eq x y h = ground arith

pub load-del :
    (b k : String) (a : Assignment) (m : Map Assignment)
    → Maps.Distinct m
    → Maps.get k m ≡ some a
    → load b (Maps.del k m) + ite (str_dec a.backend b) (effective_weight a) 0 ≡ load b m
unfolding weights sum_of Maps.get Maps.del
load-del b k a [] d h = absurd (ground arith)
load-del b k a (e ∷ m) d h = elim (str_dec e.0 k) [
  | yes q ↦
      let absent = ap (λ x. Maps.get x m) (sym q) ∙ d.0 in
      let same = value_eq e.1 a (sym (if_pos (str_dec e.0 k) q (some e.1) (Maps.get k m)) ∙ h) in
      rw (if_pos (str_dec e.0 k) q, Maps.del_absent k m absent)
        (omega
          (arith, ap (λ (x : Assignment). ite (str_dec x.backend b) (effective_weight x) 0) same))
  | no q ↦
      let later = sym (if_neg (str_dec e.0 k) q (some e.1) (Maps.get k m)) ∙ h in
      rw (if_neg (str_dec e.0 k) q) (omega (arith, load-del b k a m d.1 later))
]

weight-value :
    (e : BulkAssignEntry) (now : ℕ) → effective_weight (value_of e now) ≡ weight_or_one e.weight
unfolding effective_weight weight_or_one
weight-value e now = positive e.weight
  where
    positive : (w : ℤ) → weight_or_one (pos (weight_or_one w)) ≡ weight_or_one w
    positive (pos zero) = refl
    positive (pos (suc n)) = refl
    positive (negsuc n) = refl

added :
    (b : String) (now : ℕ) (key : String) (e : BulkAssignEntry)
    (rest : Map Assignment × List (String × ℕ)) (n : ℕ)
    → load b rest.0 ≡ n + sum_of b rest.1
    → Maps.get key rest.0 ≡ none
    → load b (Maps.put key (value_of e now) rest.0)
      ≡ n + sum_of b ((e.backend, weight_or_one e.weight) ∷ rest.1)
unfolding sum_of
added b now key e rest n h absent = omega (
  arith,
  h,
  load-put_new b key (value_of e now) rest.0 absent,
  ap (λ (x : ℕ). ite (str_dec e.backend b) x 0) (weight-value e now),
)

-- The new assignments of a bulk assignment carry the weights that are counted for them.
pub set_new-load :
    (b : String) (now : ℕ) (es : Map BulkAssignEntry) (m : Map Assignment)
    → Maps.Distinct m
    → Maps.Distinct (set_new now es m).0
      × (load b (set_new now es m).0 ≡ load b m + sum_of b (set_new now es m).1)
unfolding set_new
set_new-load b now [] m d = (d, unfold sum_of in omega arith)
set_new-load b now ((key, e) ∷ es) m d =
    let ih = set_new-load b now es m d in
    let rest = set_new now es m in
    elim (Bool-cases (Maps.has key rest.0)) [
      | inl there ↦ rw there ih
      | inr new ↦ rw new (
        Maps.put-Distinct key (value_of e now) rest.0 ih.0,
        added b now key e rest _ ih.1 (Maps.get-eq-none key rest.0 new),
      )
    ]

abbrev pub NoRepeat : List String → Type 0
NoRepeat [] = Unit
NoRepeat (k ∷ ks) = (listed k ks ≡ false) × NoRepeat ks

pub get-delete_keys :
    (k : String) (ks : List String) (m : Map Assignment)
    → listed k ks ≡ false
    → Maps.get k (delete_keys ks m) ≡ Maps.get k m
unfolding delete_keys listed
get-delete_keys k [] m h = refl
get-delete_keys k (j ∷ ks) m h =
    ground (arith, get-delete_keys k ks m, Maps.get-del j k (delete_keys ks m))

pub counted-load :
    (b k : String) (ks : List String) (m : Map Assignment)
    → load b (delete_keys ks m) + sum_of b (present ks m) ≡ load b m
    → Maps.Distinct (delete_keys ks m)
    → Maps.get k (delete_keys ks m) ≡ Maps.get k m
    → (o : Option Assignment) → Maps.get k m ≡ o
    → load b (Maps.del k (delete_keys ks m)) + sum_of b (counted o (present ks m)) ≡ load b m
counted-load b k ks m h d kept none e =
    ap (λ x. load b x + sum_of b (present ks m)) (Maps.del_absent k (delete_keys ks m) (kept ∙ e))
    ∙ h
counted-load b k ks m h d kept (some a) e =
    unfold sum_of in omega (arith, h, load-del b k a (delete_keys ks m) d (kept ∙ e))

-- Deleting a key that is deleted already.
pub get-delete_keys-listed :
    (k : String) (ks : List String) (m : Map Assignment)
    → listed k ks ≡ true
    → Maps.get k (delete_keys ks m) ≡ none
unfolding delete_keys listed
get-delete_keys-listed k [] m h = absurd (ground arith)
get-delete_keys-listed k (j ∷ ks) m h =
    ground (arith, get-delete_keys-listed k ks m, Maps.get-del j k (delete_keys ks m))

-- A bulk deletion of different keys takes away the weights that are counted for them.
pub delete_keys-load :
    (b : String) (ks : List String) (m : Map Assignment)
    → Maps.Distinct m
    → NoRepeat ks
    → Maps.Distinct (delete_keys ks m)
      × (load b (delete_keys ks m) + sum_of b (present ks m) ≡ load b m)
unfolding delete_keys present
delete_keys-load b [] m d n = (d, unfold sum_of in omega arith)
delete_keys-load b (k ∷ ks) m d n =
    let ih = delete_keys-load b ks m d n.1 in
    let kept = get-delete_keys k ks m n.0 in
    (
      Maps.del-Distinct k (delete_keys ks m) ih.0,
      counted-load b k ks m ih.1 ih.0 kept (Maps.get k m) refl,
    )
