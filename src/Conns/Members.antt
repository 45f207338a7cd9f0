-- ===== src/Conns/Members.antt =====
-- The content of the tracker of internal/proxy/conn_tracker.go after any calls.
use sticky_proxy.Prelude.{
  ℕ, ◌≡◌, ◌≢◌, ◌∙◌, ◌↔◌, refl, ap, String, Bool, true, false, Option, none, some, List, [], ◌∷◌,
  length, ◌==◌, if◌then◌else◌, get_or, str_dec, ite, arith,
}
use sticky_proxy.Maps
use sticky_proxy.Maps.{Map}
use sticky_proxy.Conns.{
  ConnTracker, new, member, insert, without, add, store_rest, remove_from, remove, close_conns,
  swap_conns, count, Call, adds, removes, closes, step, run,
}

-- What one call does to whether a bridge is tracked under a key: the last call about it decides.
unfoldable pub follow : String → ℕ → Bool → Call → Bool
follow key b now (adds k c) = ite (str_dec k key) (if c == b then true else now) now
follow key b now (removes k c) = ite (str_dec k key) (if c == b then false else now) now
follow key b now (closes k) = ite (str_dec k key) false now

unfoldable pub is_tracked : String → ℕ → Bool → List Call → Bool
unfolding follow
is_tracked key b now [] = now
is_tracked key b now (c ∷ cs) = is_tracked key b (follow key b now c) cs

-- The bridges under a key.
abbrev pub bridges : ConnTracker → String → List ℕ
bridges ct key = get_or [] (Maps.get key ct)

member-without :
    (b c : ℕ) (s : List ℕ) → member b (without c s) ≡ (if c == b then false else member b s)
unfolding member without
member-without b c [] = ground arith
member-without b c (d ∷ s) = ground (arith, member-without b c s)

-- No key has an empty set.
abbrev pub IsTidy : ConnTracker → Type 0
IsTidy ct = (key : String) → Maps.get key ct ≢ some []

store_rest-bridges :
    (ct : ConnTracker) (key k : String) (s : List ℕ)
    → bridges (store_rest ct key s) k ≡ ite (str_dec key k) s (bridges ct k)
unfolding store_rest
store_rest-bridges ct key k [] = ground (arith, Maps.get-del key k ct)
store_rest-bridges ct key k (b ∷ s) = ground (arith, Maps.get-put key k (b ∷ s) ct)

store_rest-IsTidy :
    (ct : ConnTracker) (key : String) (s : List ℕ) → IsTidy ct → IsTidy (store_rest ct key s)
unfolding store_rest
store_rest-IsTidy ct key [] t k e = ground (arith, t k, Maps.get-del key k ct)
store_rest-IsTidy ct key (b ∷ s) t k e = ground (arith, t k, Maps.get-put key k (b ∷ s) ct)

remove_from-member :
    (ct : ConnTracker) (k key : String) (b c : ℕ) (o : Option (List ℕ))
    → Maps.get k ct ≡ o
    → member b (bridges (remove_from ct k c o) key)
      ≡ ite
          (str_dec k key)
          (if c == b then false else member b (bridges ct key))
          (member b (bridges ct key))
unfolding remove_from member
remove_from-member ct k key b c none h = ground (arith, ap (λ x. Maps.get x ct))
remove_from-member ct k key b c (some s) h = ground (
  arith,
  store_rest-bridges ct k key (without c s),
  member-without b c s,
  ap (λ x. Maps.get x ct),
)

remove_from-IsTidy :
    (ct : ConnTracker) (k : String) (c : ℕ) (o : Option (List ℕ))
    → IsTidy ct
    → IsTidy (remove_from ct k c o)
unfolding remove_from
remove_from-IsTidy ct k c none t = t
remove_from-IsTidy ct k c (some s) t = store_rest-IsTidy ct k (without c s) t

step-IsTidy : (ct : ConnTracker) (c : Call) → IsTidy ct → IsTidy (step ct c)
unfolding step add remove close_conns insert member
step-IsTidy ct (adds k c) t =
    λ key e. ground (arith, t key, Maps.get-put k key (insert c (bridges ct k)) ct, t k)
step-IsTidy ct (removes k c) t = remove_from-IsTidy ct k c (Maps.get k ct) t
step-IsTidy ct (closes k) t = λ key e. ground (arith, t key, Maps.get-del k key ct)

step-member :
    (ct : ConnTracker) (key : String) (b : ℕ) (c : Call)
    → member b (bridges (step ct c) key) ≡ follow key b (member b (bridges ct key)) c
unfolding step add remove close_conns insert member follow
step-member ct key b (adds k c) =
    ground (arith, Maps.get-put k key (insert c (bridges ct k)) ct, ap (λ x. Maps.get x ct))
step-member ct key b (removes k c) = remove_from-member ct k key b c (Maps.get k ct) refl
step-member ct key b (closes k) = ground (arith, Maps.get-del k key ct)

run-member :
    (ct : ConnTracker) (key : String) (b : ℕ) (cs : List Call)
    → member b (bridges (run ct cs) key) ≡ is_tracked key b (member b (bridges ct key)) cs
unfolding run is_tracked
run-member ct key b [] = refl
run-member ct key b (c ∷ cs) =
    run-member (step ct c) key b cs ∙ ap (λ x. is_tracked key b x cs) (step-member ct key b c)

run-IsTidy : (ct : ConnTracker) (cs : List Call) → IsTidy ct → IsTidy (run ct cs)
unfolding run
run-IsTidy ct [] t = t
run-IsTidy ct (c ∷ cs) t = run-IsTidy (step ct c) cs (step-IsTidy ct c t)

new-member : (key : String) (b : ℕ) → member b (bridges new key) ≡ false
unfolding new Maps.get member
new-member key b = refl

new-IsTidy : IsTidy new
unfolding new Maps.get
new-IsTidy key e = ground arith

length-get_or :
    (o : Option (List ℕ)) (ct : ConnTracker) (key : String)
    → Maps.get key ct ≡ o
    → o ≢ some []
    → (length (get_or [] o) ≡ 0) ↔ (Maps.has key ct ≡ false)
unfolding Maps.has
length-get_or none ct key h t = ground arith
length-get_or (some []) ct key h t = absurd (t refl)
length-get_or (some (b ∷ s)) ct key h t = ground arith

-- After any calls, `CloseConns` closes and `SwapConns` swaps exactly the bridges of the key that were
-- added and neither removed nor closed since.
pub close_conns-run :
    (cs : List Call) (key : String) (b : ℕ)
    → (member b (close_conns (run new cs) key).1 ≡ is_tracked key b false cs)
      × (member b (swap_conns (run new cs) key) ≡ is_tracked key b false cs)
unfolding close_conns swap_conns
close_conns-run cs key b =
    let h = run-member new key b cs ∙ ap (λ x. is_tracked key b x cs) (new-member key b) in (h, h)

-- After any calls, a key stands in the map exactly if it has a connection: `Remove` and `CloseConns`
-- leave no empty set behind.
pub count-run :
    (cs : List Call) (key : String)
    → (count (run new cs) key ≡ 0) ↔ (Maps.has key (run new cs) ≡ false)
unfolding count
count-run cs key =
    length-get_or (Maps.get key (run new cs)) (run new cs) key refl
      (run-IsTidy new cs new-IsTidy key)
