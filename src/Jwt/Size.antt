-- ===== src/Jwt/Size.antt =====
-- About `sweep` of internal/proxy/jwt_cache.go.
use mathlib.Core.List.{Perm}
use sticky_proxy.Prelude.{
  ℕ, zero, suc, ◌≤◌, ◌<◌, ◌≡◌, ◌⊎◌, ◌∙◌, refl, sym, ap, String, true, ◌&&◌, ◌||◌, none, some, List,
  [], ◌∷◌, length, drop, ltb, if◌then◌else◌, listed, Bool-cases, Option-cases, inl, inr, arith,
}
use sticky_proxy.Prelude.Sort.{sort-eq_of_perm}
use sticky_proxy.Hashing.Stable.{listed-sort}
use sticky_proxy.Maps
use sticky_proxy.Maps.{Map}
use sticky_proxy.Jwt.{Cached, Cache, drop_expired, delete_all, sweep}

-- Pigeonhole: a map whose keys all stand in a list has at most as many entries.
length-listed :
    (xs : List String) (m : Map Cached)
    → Maps.Distinct m
    → ((k : String) → Maps.has k m ≡ true → listed k xs ≡ true)
    → length m ≤ length xs
unfolding listed Maps.has Maps.get
length-listed [] [] d h = omega arith
length-listed [] (e ∷ m) d h = absurd (ground (arith, h e.0))
length-listed (x ∷ xs) m d h =
    let rest =
      length-listed xs (Maps.del x m) (Maps.del-Distinct x m d)
        (λ k p. ground (arith, h k, Maps.get-del x k m)) in
    elim (Option-cases (Maps.get x m)) [
      | inl e ↦ ground (arith, rest, Maps.del_absent x m e)
      | inr (v, e) ↦ ground (arith, rest, Maps.length-del x m v d e)
    ]

delete_all-Distinct :
    (ks : List String) (m : Map Cached) → Maps.Distinct m → Maps.Distinct (delete_all ks m)
unfolding delete_all
delete_all-Distinct [] m d = d
delete_all-Distinct (k ∷ ks) m d = delete_all-Distinct ks (Maps.del k m) (Maps.del-Distinct k m d)

pub get-delete_all :
    (ks : List String) (m : Map Cached) (k : String)
    → Maps.get k (delete_all ks m) ≡ (if listed k ks then none else Maps.get k m)
unfolding delete_all listed
get-delete_all [] m k = refl
get-delete_all (x ∷ ks) m k = ground (arith, get-delete_all ks (Maps.del x m) k, Maps.get-del x k m)

pub take : ℕ → List String → List String
take zero xs = []
take (suc n) [] = []
take (suc n) (x ∷ xs) = x ∷ take n xs

listed-split :
    (n : ℕ) (xs : List String) (k : String)
    → listed k xs ≡ listed k (take n xs) || listed k (drop n xs)
unfolding take listed
listed-split zero xs k = refl
listed-split (suc n) [] k = refl
listed-split (suc n) (x ∷ xs) k = ground (arith, listed-split n xs k)

length-take_le : (n : ℕ) (xs : List String) → length (take n xs) ≤ n
unfolding take
length-take_le zero xs = omega arith
length-take_le (suc n) [] = omega arith
length-take_le (suc n) (x ∷ xs) = omega (arith, length-take_le n xs)

listed-perm : {xs ys : List String} → Perm xs ys → (k : String) → listed k xs ≡ listed k ys
listed-perm {xs} {ys} p k =
    sym (listed-sort k xs) ∙ ap (listed k) (sort-eq_of_perm p) ∙ listed-sort k ys

get-drop_expired :
    (now : ℕ) (k : String) (m : Map Cached)
    → Maps.Distinct m
    → Maps.get k (drop_expired now m)
      ≡ elim (Maps.get k m) [ none ↦ none | some e ↦ if ltb e.exp now then none else some e ]
unfolding drop_expired Maps.get
get-drop_expired now k [] d = refl
get-drop_expired now k (e ∷ m) d = ground (arith, get-drop_expired now k m)

drop_expired-Distinct :
    (now : ℕ) (m : Map Cached) → Maps.Distinct m → Maps.Distinct (drop_expired now m)
unfolding drop_expired
drop_expired-Distinct now [] d = tt
drop_expired-Distinct now (e ∷ m) d =
    ground (arith, drop_expired-Distinct now m, get-drop_expired now e.0 m)

length-keys : (m : Map Cached) → length (Maps.keys m) ≡ length m
length-keys [] = refl
length-keys (e ∷ m) = omega (arith, length-keys m)

-- The keys that a sweep deletes besides the expired ones.
abbrev surplus : (List String → List String) → Cache → ℕ → List String
surplus shuffle c now = drop c.max_size (shuffle (Maps.keys (drop_expired now c.data_of)))

kept-taken :
    (shuffle : List String → List String) (c : Cache) (now : ℕ) (k : String)
    → ((ks : List String) → Perm (shuffle ks) ks)
    → Maps.has k (delete_all (surplus shuffle c now) (drop_expired now c.data_of)) ≡ true
    → listed k (take c.max_size (shuffle (Maps.keys (drop_expired now c.data_of)))) ≡ true
unfolding Maps.has
kept-taken shuffle c now k perm h =
    let live = drop_expired now c.data_of in
    let keys = Maps.keys live in
    ground (
      arith,
      get-delete_all (surplus shuffle c now) live k,
      listed-split c.max_size (shuffle keys) k,
      listed-perm (perm keys) k,
      Maps.listed-keys k live,
    )

-- With a positive maximal size, a sweep leaves at most as many tokens, whatever the shuffle.
pub length-sweep :
    (shuffle : List String → List String) (c : Cache) (now : ℕ)
    → ((ks : List String) → Perm (shuffle ks) ks)
    → Maps.Distinct c.data_of
    → 0 < c.max_size
    → length (sweep shuffle c now).data_of ≤ c.max_size
unfolding sweep
length-sweep shuffle c now perm d pos =
    let live = drop_expired now c.data_of in
    let keys = Maps.keys live in
    elim (Bool-cases (ltb 0 c.max_size && ltb c.max_size (length keys))) [
      | inl e ↦ rw e (
          omega (
            arith,
            length-take_le c.max_size (shuffle keys),
            length-listed (take c.max_size (shuffle keys)) (delete_all (surplus shuffle c now) live)
                (delete_all-Distinct (surplus shuffle c now) live
                  (drop_expired-Distinct now c.data_of d))
                (λ k h. kept-taken shuffle c now k perm h),
          ))
      | inr e ↦ rw e (ground (arith, length-keys live))
    ]

-- A token that a sweep keeps was cached and is not expired; if the live tokens fit, or no maximal size
-- is set, each of them is kept.
pub get-sweep :
    (shuffle : List String → List String) (c : Cache) (now : ℕ) (token : String) (e : Cached)
    → Maps.Distinct c.data_of
    → (Maps.get token (sweep shuffle c now).data_of ≡ some e
        → (Maps.get token c.data_of ≡ some e) × (now ≤ e.exp))
      × ((c.max_size ≡ 0) ⊎ (length (drop_expired now c.data_of) ≤ c.max_size)
          → Maps.get token c.data_of ≡ some e
          → now ≤ e.exp
          → Maps.get token (sweep shuffle c now).data_of ≡ some e)
unfolding sweep
get-sweep shuffle c now token e d =
    let live = drop_expired now c.data_of in
    let kept = get-drop_expired now token c.data_of d in
    (
      λ h. ground (arith, kept, get-delete_all (surplus shuffle c now) live token),
      λ fits h le. elim fits [
        | inl z ↦ ground (arith, kept)
        | inr small ↦ ground (arith, kept, length-keys live)
      ],
    )
