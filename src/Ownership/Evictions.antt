-- ===== src/Ownership/Evictions.antt =====
-- About `check` of pkg/ownership/checker.go: which users it untracks and reports.
use sticky_proxy.Prelude.{
  ℕ, zero, suc, ◌-◌, ◌≤◌, ◌<◌, ◌≡◌, ◌∙◌, refl, sym, ap, subst, String, Bool, true, false, not, ◌&&◌,
  ◌||◌, Option, some, List, [], ◌∷◌, ◌++◌, length, drop, get_or, map, str_dec, ite, listed,
  listed-append, arith,
}
use sticky_proxy.Maps
use sticky_proxy.Maps.{Map}
use sticky_proxy.Ownership.{
  Checker, check_value, check_values, check_answer, take, sticky_key, check_batch, check_batches,
  check,
}

-- Redis answers an MGET with the value of each key, in order.
abbrev pub Answers :
    (List String → Option (List (Option String))) → (String → Option String) → Type 0
Answers mget redis = (keys : List String) → mget keys ≡ some (map redis keys)

-- The key of the user holds another address than this backend's.
unfoldable pub is_lost : (String → Option String) → String → String → Bool
is_lost redis my_addr user = ite (str_dec (get_or "" (redis (sticky_key user))) my_addr) false true

-- What the state is after the given users have been looked at.
pub record IsChecked (redis : String → Option String) (before after : Checker) (users : List String)
    : Type 0 where
  pub same_addr : after.my_addr ≡ before.my_addr
  pub same_size : after.batch_size ≡ before.batch_size
  pub tracked :
      (u : String)
      → Maps.has u after.users
        ≡ Maps.has u before.users && not (listed u users && is_lost redis before.my_addr u)
  pub reported :
      (u : String)
      → listed u after.evicted
        ≡ listed u before.evicted || (listed u users && is_lost redis before.my_addr u)

unchanged : (redis : String → Option String) (c : Checker) → IsChecked redis c c []
unfolding listed
unchanged redis c = record {
  same_addr = refl;
  same_size = refl;
  tracked = λ u. ground arith;
  reported = λ u. ground arith;
}

check_value-IsChecked :
    (redis : String → Option String) (c : Checker) (user : String)
    → IsChecked redis c (check_value c user (redis (sticky_key user))) (user ∷ [])
unfolding is_lost listed check_value
check_value-IsChecked redis c user = record {
  same_addr = ground arith;
  same_size = ground arith;
  tracked =
      λ u. ground (arith, Maps.has-del user u c.users, ap (λ x. get_or "" (redis (sticky_key x))));
  reported = λ u.
      ground
        (arith, listed-append u c.evicted (user ∷ []), ap (λ x. get_or "" (redis (sticky_key x))));
}

-- Two rounds, one after the other.
IsChecked-append :
    (redis : String → Option String) (a b c : Checker) (xs ys : List String)
    → IsChecked redis a b xs
    → IsChecked redis b c ys
    → IsChecked redis a c (xs ++ ys)
IsChecked-append redis a b c xs ys h k = record {
  same_addr = k.same_addr ∙ h.same_addr;
  same_size = k.same_size ∙ h.same_size;
  tracked = λ u. ground (
    arith,
    h.tracked u,
    k.tracked u,
    listed-append u xs ys,
    ap (λ x. is_lost redis x u) h.same_addr,
  );
  reported = λ u. ground (
    arith,
    h.reported u,
    k.reported u,
    listed-append u xs ys,
    ap (λ x. is_lost redis x u) h.same_addr,
  );
}

check_values-IsChecked :
    (redis : String → Option String) (c : Checker) (users : List String)
    → IsChecked redis c (check_values c users (map redis (map sticky_key users))) users
unfolding check_values
check_values-IsChecked redis c [] = unchanged redis c
check_values-IsChecked redis c (user ∷ users) =
    let next = check_value c user (redis (sticky_key user)) in
    IsChecked-append redis c next _ (user ∷ []) users (check_value-IsChecked redis c user)
      (check_values-IsChecked redis next users)

take-drop : (n : ℕ) (xs : List String) → take n xs ++ drop n xs ≡ xs
unfolding take
take-drop zero xs = refl
take-drop (suc n) [] = refl
take-drop (suc n) (x ∷ xs) = ap (λ ys. x ∷ ys) (take-drop n xs)

length-drop : (n : ℕ) (xs : List String) → length (drop n xs) ≡ length xs - n
length-drop zero xs = omega arith
length-drop (suc n) [] = omega arith
length-drop (suc n) (x ∷ xs) = omega (arith, length-drop n xs)

module _ (mget : List String → Option (List (Option String))) (redis : String → Option String)
    (answers : Answers mget redis) where
  check_batch-IsChecked :
      (c : Checker) (users : List String) → IsChecked redis c (check_batch mget c users) users
  unfolding check_batch check_answer
  check_batch-IsChecked c users =
      subst (λ x. IsChecked redis c (check_answer c users x) users)
        (sym (answers (map sticky_key users))) (check_values-IsChecked redis c users)

  check_batches-IsChecked :
      (fuel : ℕ) (c : Checker) (users : List String)
      → length users ≤ fuel
      → 0 < c.batch_size
      → IsChecked redis c (check_batches mget fuel c users) users
  unfolding check_batches
  check_batches-IsChecked fuel c [] enough pos = unfold check_batches in unchanged redis c
  check_batches-IsChecked zero c (user ∷ users) enough pos = absurd (omega arith)
  check_batches-IsChecked (suc fuel) c (user ∷ users) enough pos =
      let n = c.batch_size in
      let here = check_batch-IsChecked c (take n (user ∷ users)) in
      let rest =
        check_batches-IsChecked fuel (check_batch mget c (take n (user ∷ users)))
          (drop n (user ∷ users)) (omega (arith, length-drop n (user ∷ users)))
          (omega (arith, here.same_size)) in
      subst (IsChecked redis c (check_batches mget (suc fuel) c (user ∷ users)))
        (take-drop n (user ∷ users))
        (IsChecked-append redis c _ _ (take n (user ∷ users)) (drop n (user ∷ users)) here rest)

length-keys : (m : Map (Unit {0})) → length (Maps.keys m) ≡ length m
length-keys [] = refl
length-keys (e ∷ m) = omega (arith, length-keys m)

-- If Redis answers, a check leaves tracked exactly the users whose key still names this backend, and
-- calls `OnEvict` exactly for the other users that were tracked, whatever the number of batches.
pub check-is_lost :
    (mget : List String → Option (List (Option String))) (redis : String → Option String)
    (c : Checker) (u : String)
    → Answers mget redis
    → 0 < c.batch_size
    → (Maps.has u (check mget c).users ≡ Maps.has u c.users && not (is_lost redis c.my_addr u))
      × (listed u (check mget c).evicted
          ≡ listed u c.evicted || (Maps.has u c.users && is_lost redis c.my_addr u))
unfolding check
check-is_lost mget redis c u answers pos =
    let done =
      check_batches-IsChecked mget redis answers (length c.users) c (Maps.keys c.users)
        (omega (arith, length-keys c.users)) pos in
    (
      ground (arith, done.tracked u, Maps.listed-keys u c.users),
      ground (arith, done.reported u, Maps.listed-keys u c.users),
    )
