-- ===== src/Rebalancer/Rehash.antt =====
-- About `ComputeMoves` of `ConsistentHashStrategy`, internal/proxy/rebalancer.go.
use sticky_proxy.Prelude.{
  ◌≡◌, ◌≢◌, refl, ap, String, none, some, List, [], ◌∷◌, str_dec, ite, arith,
}
use sticky_proxy.Prelude.Sort.{sort}
use sticky_proxy.Maps
use sticky_proxy.Maps.{Map}
use sticky_proxy.Assignment.{Assignment}
use sticky_proxy.Hashing.{hash_user, pick, assign_via_hash, listing}
use sticky_proxy.Rebalancer.{Move, rehash, consistent_hash}

-- Where the user is after the moves.
unfoldable pub destination : String → String → List Move → String
destination user now [] = now
destination user now (m ∷ ms) =
    ite (str_dec m.routing_key user) m.to_backend (destination user now ms)

rehash_absent :
    (sorted : List String) (user now : String) (assignments : Map Assignment)
    → Maps.get user assignments ≡ none
    → destination user now (rehash sorted assignments) ≡ now
unfolding rehash destination Maps.get
rehash_absent sorted user now [] h = refl
rehash_absent sorted user now ((u, a) ∷ assignments) h =
    ground (arith, rehash_absent sorted user now assignments)

destination-rehash :
    (sorted : List String) (user : String) (a : Assignment) (assignments : Map Assignment)
    → Maps.Distinct assignments
    → Maps.get user assignments ≡ some a
    → destination user a.backend (rehash sorted assignments) ≡ pick (hash_user user) sorted
unfolding rehash destination Maps.get
destination-rehash sorted user a [] d h = absurd (ground arith)
destination-rehash sorted user a ((u, c) ∷ assignments) d h = ground (
  arith,
  destination-rehash sorted user a assignments,
  rehash_absent sorted u c.backend assignments,
)

-- After the moves of the consistent-hash strategy every assigned user is where hash routing over the
-- active backends sends the user.
pub consistent_hash-assign_via_hash :
    (assignments : Map Assignment) (active : List String) (user : String) (a : Assignment)
    → Maps.Distinct assignments
    → Maps.get user assignments ≡ some a
    → active ≢ []
    → some (destination user a.backend (consistent_hash assignments active))
      ≡ assign_via_hash (listing active) user
unfolding consistent_hash assign_via_hash
consistent_hash-assign_via_hash assignments [] user a d h ne = absurd (ne refl)
consistent_hash-assign_via_hash assignments (b ∷ bs) user a d h ne =
    ap some (destination-rehash (sort (b ∷ bs)) user a assignments d h)
