-- ===== src/Maps.antt =====
-- Go maps with string keys, as association lists with distinct keys. An iteration with `range` runs
-- over the list; since a list may hold the keys in any order, what is proved of every list is proved
-- of every order in which Go may iterate.
use mathlib.Core.Path.{ap₂}
use sticky_proxy.Prelude.{
  listed, All, if_pos, subst, ap, if_neg, length, ◌+◌, refl, String, ◌≡◌, ◌≢◌, ite, Bool, true,
  false, Option, none, some, List, [], ◌∷◌, map, arith, str_dec,
}

pair_eq {ℓ} : {A : Type ℓ} (e : String × A) (k : String) (v : A) → e.0 ≡ k → e.1 ≡ v → e ≡ (k, v)
pair_eq e k v p q = ap₂ (λ x y. (x, y)) p q

abbrev pub Map {ℓ} : Type ℓ → Type ℓ
Map V = List (String × V)

module _ {ℓ} {V : Type ℓ} where
  abbrev pub keys : Map V → List String
  keys = map (λ e. e.0)

  -- `v, ok := m[k]`
  unfoldable pub get : String → Map V → Option V
  get k [] = none
  get k (e ∷ m) = ite (str_dec e.0 k) (some e.1) (get k m)

  -- `m[k] = v`
  unfoldable pub put : String → V → Map V → Map V
  put k v [] = (k, v) ∷ []
  put k v (e ∷ m) = ite (str_dec e.0 k) ((k, v) ∷ m) (e ∷ put k v m)

  -- `delete(m, k)`
  unfoldable pub del : String → Map V → Map V
  del k [] = []
  del k (e ∷ m) = ite (str_dec e.0 k) (del k m) (e ∷ del k m)

  -- `_, ok := m[k]`
  unfoldable pub has : String → Map V → Bool
  has k m = elim (get k m) [ none ↦ false | some _ ↦ true ]

  -- No key twice.
  abbrev pub Distinct : Map V → Type ℓ
  Distinct [] = Unit
  Distinct (e ∷ m) = (get e.0 m ≡ none) × Distinct m

  pub get-put :
      (k j : String) (v : V) (m : Map V) → get j (put k v m) ≡ ite (str_dec k j) (some v) (get j m)
  unfolding get put
  get-put k j v [] = ground arith
  get-put k j v (e ∷ m) = ground (arith, get-put k j v m)

  pub get-del : (k j : String) (m : Map V) → get j (del k m) ≡ ite (str_dec k j) none (get j m)
  unfolding get del
  get-del k j [] = ground arith
  get-del k j (e ∷ m) = ground (arith, get-del k j m)

  pub get-put_self : (k : String) (v : V) (m : Map V) → get k (put k v m) ≡ some v
  get-put_self k v m = ground (arith, get-put k k v m)

  pub get-put_ne : (k j : String) (v : V) (m : Map V) → k ≢ j → get j (put k v m) ≡ get j m
  get-put_ne k j v m h = ground (arith, get-put k j v m)

  pub get-del_self : (k : String) (m : Map V) → get k (del k m) ≡ none
  get-del_self k m = ground (arith, get-del k k m)

  pub get-del_ne : (k j : String) (m : Map V) → k ≢ j → get j (del k m) ≡ get j m
  get-del_ne k j m h = ground (arith, get-del k j m)

  pub put-Distinct : (k : String) (v : V) (m : Map V) → Distinct m → Distinct (put k v m)
  unfolding get put
  put-Distinct k v [] d = ground arith
  put-Distinct k v (e ∷ m) d = ground (arith, put-Distinct k v m, get-put k e.0 v m)

  pub del-Distinct : (k : String) (m : Map V) → Distinct m → Distinct (del k m)
  unfolding get del
  del-Distinct k [] d = tt
  del-Distinct k (e ∷ m) d = ground (arith, del-Distinct k m, get-del k e.0 m)

  pub has-get : (k : String) (m : Map V) (v : V) → get k m ≡ some v → has k m ≡ true
  unfolding has
  has-get k m v h = ground arith

  pub has-none : (k : String) (m : Map V) → get k m ≡ none → has k m ≡ false
  unfolding has
  has-none k m h = ground arith

  pub length-put_new :
      (k : String) (v : V) (m : Map V) → get k m ≡ none → length (put k v m) ≡ length m + 1
  unfolding get put
  length-put_new k v [] h = refl
  length-put_new k v (e ∷ m) h = ground (arith, length-put_new k v m)

  pub del_absent : (k : String) (m : Map V) → get k m ≡ none → del k m ≡ m
  unfolding get del
  del_absent k [] h = refl
  del_absent k (e ∷ m) h = ground (arith, del_absent k m)

  pub length-del :
      (k : String) (m : Map V) (v : V)
      → Distinct m
      → get k m ≡ some v
      → length (del k m) + 1 ≡ length m
  unfolding get del
  length-del k [] v d h = cc
  length-del k (e ∷ m) v d h = ground (arith, length-del k m v, del_absent k m)

  pub has-put :
      (k j : String) (v : V) (m : Map V) → has j (put k v m) ≡ ite (str_dec k j) true (has j m)
  unfolding has
  has-put k j v m = ground (arith, get-put k j v m)

  pub has-del : (k j : String) (m : Map V) → has j (del k m) ≡ ite (str_dec k j) false (has j m)
  unfolding has
  has-del k j m = ground (arith, get-del k j m)

  pub get-eq-none : (k : String) (m : Map V) → has k m ≡ false → get k m ≡ none
  unfolding has
  get-eq-none k m h = ground arith

  pub get-eq-some : (k : String) (m : Map V) → has k m ≡ true → (v : V) × (get k m ≡ some v)
  unfolding has
  get-eq-some k m h = ground arith

  pub has-put_self : (k : String) (v : V) (m : Map V) → has k (put k v m) ≡ true
  has-put_self k v m = ground (arith, has-put k k v m)

  pub has-put_ne : (k j : String) (v : V) (m : Map V) → k ≢ j → has j (put k v m) ≡ has j m
  has-put_ne k j v m h = ground (arith, has-put k j v m)

  pub has-del_self : (k : String) (m : Map V) → has k (del k m) ≡ false
  has-del_self k m = ground (arith, has-del k k m)

  pub has-del_ne : (k j : String) (m : Map V) → k ≢ j → has j (del k m) ≡ has j m
  has-del_ne k j m h = ground (arith, has-del k j m)

  -- Reading past the first entry.
  pub get-tail :
      (k : String) (v : V) (e : String × V) (m : Map V)
      → Distinct (e ∷ m)
      → get k m ≡ some v
      → get k (e ∷ m) ≡ some v
  unfolding get
  get-tail k v e m d h = elim (str_dec e.0 k) [
    | yes p ↦ absurd (ground (arith, ap (λ x. get x m) p))
    | no p ↦ rw (if_neg (str_dec e.0 k) p) h
  ]

  pub get-head : (k : String) (v : V) (m : Map V) → get k ((k, v) ∷ m) ≡ some v
  unfolding get
  get-head k v m = ground arith

  pub has-tail : (k : String) (e : String × V) (m : Map V) → has k m ≡ true → has k (e ∷ m) ≡ true
  unfolding has get
  has-tail k e m h = ground arith

  get-head_eq : (k j : String) (u v : V) (m : Map V) → k ≡ j → get j ((k, u) ∷ m) ≡ some v → u ≡ v
  unfolding get
  get-head_eq k j u v m p g = ground arith

  pub get-All :
      (P : String × V → Type 0) (k : String) (v : V) (m : Map V)
      → All P m
      → get k m ≡ some v
      → P (k, v)
  unfolding get
  get-All P k v [] h g = absurd (ground arith)
  get-All P k v (e ∷ m) h g = elim (str_dec e.0 k) [
    | yes p ↦ subst P (pair_eq e k v p (get-head_eq e.0 k e.1 v m p g)) h.0
    | no p ↦ get-All P k v m h.1 (ground arith)
  ]

  pub put-All :
      (P : String × V → Type 0) (k : String) (v : V) (m : Map V)
      → All P m
      → P (k, v)
      → All P (put k v m)
  unfolding put
  put-All P k v [] h p = (p, tt)
  put-All P k v (e ∷ m) h p = elim (str_dec e.0 k) [
    | yes q ↦ rw (if_pos (str_dec e.0 k) q) (p, h.1)
    | no q ↦ rw (if_neg (str_dec e.0 k) q) (h.0, put-All P k v m h.1 p)
  ]

  All-tail :
      (e : String × V) (m : Map V)
      → Distinct (e ∷ m)
      → (es : Map V) → All (λ f. get f.0 m ≡ some f.1) es
      → All (λ f. get f.0 (e ∷ m) ≡ some f.1) es
  All-tail e m d [] h = tt
  All-tail e m d (f ∷ es) h = (get-tail f.0 f.1 e m d h.0, All-tail e m d es h.1)

  -- In a map without a repeated key, every entry is what its key is mapped to.
  pub Distinct-All : (m : Map V) → Distinct m → All (λ e. get e.0 m ≡ some e.1) m
  Distinct-All [] d = tt
  Distinct-All (e ∷ m) d = (get-head e.0 e.1 m, All-tail e m d m (Distinct-All m d.1))

  pub listed-keys : (k : String) (m : Map V) → listed k (keys m) ≡ has k m
  unfolding listed has get
  listed-keys k [] = refl
  listed-keys k (e ∷ m) = ground (arith, listed-keys k m)
