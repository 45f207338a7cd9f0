-- ===== src/Hashing/Stable.antt =====
-- About `assignViaHash` of internal/proxy/proxy.go and `hashFallback` of internal/proxy/redis.go.
use mathlib.Core.List.{Perm}
use sticky_proxy.Prelude.{
  ℕ, zero, suc, ◌%◌, ◌^◌, ◌<◌, ◌≡◌, refl, ◌∙◌, sym, ap, String, true, none, some, List, [], ◌∷◌,
  arith, length, get_elem?, get_elem?_of_lt, listed, str_dec, ite, inl, inr, ◌⊎◌,
}
use sticky_proxy.Prelude.Sort.{insert, sort, sort-eq_of_perm}
use sticky_proxy.Hashing.{
  hash_user, crc32, hash_bytes, pick, listing, assign_via_hash, hash_fallback,
}

-- The sorted list, its length and its members.
length-insert : (x : String) (ys : List String) → length (insert x ys) ≡ suc (length ys)
unfolding insert
length-insert x [] = refl
length-insert x (y ∷ ys) = ground (arith, length-insert x ys)

pub length-sort : (xs : List String) → length (sort xs) ≡ length xs
unfolding sort
length-sort [] = refl
length-sort (x ∷ xs) = length-insert x (sort xs) ∙ ap suc (length-sort xs)

listed-insert :
    (k x : String) (ys : List String)
    → listed k (insert x ys) ≡ ite (str_dec x k) true (listed k ys)
unfolding insert listed
listed-insert k x [] = refl
listed-insert k x (y ∷ ys) = ground (arith, listed-insert k x ys)

pub listed-sort : (k : String) (xs : List String) → listed k (sort xs) ≡ listed k xs
unfolding sort listed
listed-sort k [] = refl
listed-sort k (x ∷ xs) = ground (arith, listed-insert k x (sort xs), listed-sort k xs)

pub get_elem?-listed :
    (xs : List String) (i : ℕ) (x : String) → get_elem? xs i ≡ some x → listed x xs ≡ true
unfolding listed
get_elem?-listed [] i x h = cc
get_elem?-listed (y ∷ ys) zero x h = ground arith
get_elem?-listed (y ∷ ys) (suc i) x h = ground (arith, get_elem?-listed ys i x)

-- The index is in range, so what is picked is an element of the list.
pub pick-listed :
    (hash : ℕ) (xs : List String)
    → 0 < length xs
    → length xs < 2 ^ 32
    → listed (pick hash xs) xs ≡ true
unfolding pick
pick-listed hash xs pos small =
    let (x, e) = get_elem?_of_lt xs (hash % (length xs % 2 ^ 32)) (grind arith) in
    rw e (get_elem?-listed xs _ x e)

same-assignment :
    (xs ys : List String) (key : String)
    → length xs ≡ length ys
    → sort xs ≡ sort ys
    → assign_via_hash (listing xs) key ≡ assign_via_hash (listing ys) key
unfolding assign_via_hash
same-assignment [] [] key l s = refl
same-assignment [] (y ∷ ys) key l s = absurd (omega arith)
same-assignment (x ∷ xs) [] key l s = absurd (omega arith)
same-assignment (x ∷ xs) (y ∷ ys) key l s = rw s

-- Two proxies whose stores list the same backends, in whatever order, route a key to the same one.
pub assign_via_hash-perm :
    (xs ys : List String) (key : String)
    → Perm xs ys
    → assign_via_hash (listing xs) key ≡ assign_via_hash (listing ys) key
assign_via_hash-perm xs ys key p =
    let same = sort-eq_of_perm p in
    same-assignment xs ys key (sym (length-sort xs) ∙ ap length same ∙ length-sort ys) same

-- `assignViaHash` fails exactly on an error of the store or an empty list, and otherwise picks an
-- active backend (of fewer than 2 ^ 32).
pub assign_via_hash-listed :
    (bs : List String) (key : String)
    → length bs < 2 ^ 32
    → (bs ≡ []) × (assign_via_hash (listing bs) key ≡ none)
      ⊎ ((b : String) × (assign_via_hash (listing bs) key ≡ some b) × (listed b bs ≡ true))
unfolding assign_via_hash
assign_via_hash-listed [] key small = inl (refl, refl)
assign_via_hash-listed (b ∷ bs) key small =
    let picked =
      pick-listed (hash_user key) (sort (b ∷ bs)) (omega (arith, length-sort (b ∷ bs)))
        (omega (arith, length-sort (b ∷ bs))) in
    inr (_, refl, sym (listed-sort _ (b ∷ bs)) ∙ picked)

-- The fallback of the Redis breaker picks a cached backend, or "" if there is none.
pub hash_fallback-listed :
    (bs : List String) (hash : ℕ)
    → length bs < 2 ^ 32
    → (bs ≡ []) × (hash_fallback bs hash ≡ "") ⊎ (listed (hash_fallback bs hash) bs ≡ true)
unfolding hash_fallback
hash_fallback-listed [] hash small = inl (refl, refl)
hash_fallback-listed (b ∷ bs) hash small =
    inr (pick-listed (crc32 (hash_bytes hash)) (b ∷ bs) (omega arith) small)
