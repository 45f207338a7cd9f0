-- ===== src/Hashing/Tests.antt =====
-- Runs of the hash routing. "123456789" is the check value of CRC-32.
use mathlib.Core.List.Perm
use sticky_proxy.Prelude.{◌≡◌, refl, String, List, [], ◌∷◌, some, str_leb}
use sticky_proxy.Hashing.{hash_user, listing, assign_via_hash}
use sticky_proxy.Hashing.Stable.{assign_via_hash-perm}
use sticky_proxy.Prelude.Sort.{sort}

check_value : hash_user "123456789" ≡ 0xcbf43926
unfolding hash_user
check_value = refl

abbrev two : List String
two = "http://b2:8080" ∷ "http://b1:8080" ∷ []

abbrev two_reversed : List String
two_reversed = "http://b1:8080" ∷ "http://b2:8080" ∷ []

routed : assign_via_hash (listing two) "alice" ≡ some "http://b2:8080"
unfolding assign_via_hash sort str_leb
routed = refl

assign_via_hash-perm_example :
    assign_via_hash (listing two) "alice" ≡ assign_via_hash (listing two_reversed) "alice"
assign_via_hash-perm_example = assign_via_hash-perm two two_reversed "alice" (Perm.swap _ _ [])
