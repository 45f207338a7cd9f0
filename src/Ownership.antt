-- ===== src/Ownership.antt =====
-- pkg/ownership/checker.go: a backend's check that it still owns the users it works for. Redis is the
-- argument `mget`, the answer to one MGET: `none` is an error, and a value is `none` where the key is
-- missing or not a string. Users who are tracked while a check runs are other steps.
pub mod Evictions
mod Tests
use Prim.Native.String.{◌++◌ as concat}
use sticky_proxy.Prelude.{
  ℕ, zero, suc, String, Bool, Option, none, some, List, [], ◌∷◌, ◌++◌, length, drop, get_or, map,
  str_dec, ite,
}
use sticky_proxy.Maps
use sticky_proxy.Maps.{Map}

-- `evicted` is what `OnEvict` was called with, in order.
pub record Checker : Type 0 where
  pub my_addr : String
  pub batch_size : ℕ
  pub users : Map (Unit {0})
  pub evicted : List String

unfoldable pub new : String → Checker
new my_addr = record { my_addr = my_addr; batch_size = 1000; users = []; evicted = [] }

unfoldable pub track : Checker → String → Checker
track c user = record c { users = Maps.put user tt c.users }

unfoldable pub untrack : Checker → String → Checker
untrack c user = record c { users = Maps.del user c.users }

unfoldable pub tracked_count : Checker → ℕ
tracked_count c = length c.users

-- one value: an owner of "" is a missing key
unfoldable pub check_value : Checker → String → Option String → Checker
check_value c user val =
    ite (str_dec (get_or "" val) c.my_addr) c
      (record c { users = Maps.del user c.users; evicted = c.evicted ++ user ∷ [] })

unfoldable pub check_values : Checker → List String → List (Option String) → Checker
unfolding check_value
check_values c [] vals = c
check_values c (user ∷ users) [] = c
check_values c (user ∷ users) (val ∷ vals) = check_values (check_value c user val) users vals

unfoldable pub check_answer : Checker → List String → Option (List (Option String)) → Checker
unfolding check_values
check_answer c users none = c
check_answer c users (some vals) = check_values c users vals

unfoldable pub take : ℕ → List String → List String
take zero xs = []
take (suc n) [] = []
take (suc n) (x ∷ xs) = x ∷ take n xs

abbrev pub sticky_key : String → String
sticky_key user = concat "sticky:" user

module _ (mget : List String → Option (List (Option String))) where
  unfoldable pub check_batch : Checker → List String → Checker
  unfolding check_answer
  check_batch c users = check_answer c users (mget (map sticky_key users))

  -- the loop over the batches; as many rounds as there are users are enough
  unfoldable pub check_batches : ℕ → Checker → List String → Checker
  unfolding take check_batch
  check_batches fuel c [] = c
  check_batches zero c (user ∷ users) = c
  check_batches (suc fuel) c (user ∷ users) =
      check_batches fuel (check_batch c (take c.batch_size (user ∷ users)))
        (drop c.batch_size (user ∷ users))

  -- `check`, with the users in the order of the snapshot
  unfoldable pub check : Checker → Checker
  unfolding check_batches
  check c = check_batches (length c.users) c (Maps.keys c.users)
