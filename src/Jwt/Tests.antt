-- ===== src/Jwt/Tests.antt =====
-- A cached token, a sweep, and the theorems about them.
use Prim.Native.String.{◌++◌ as concat}
use sticky_proxy.Prelude.{
  ℕ, ◌≡◌, refl, String, none, some, List, [], ◌∷◌, str_dec, ite, is_empty, arith,
}
use sticky_proxy.Maps
use sticky_proxy.Jwt.{Cached, Cache, new, set, sweep, bearer_token, found, extract, unix}
use sticky_proxy.Jwt.Trust.{Parser, Accepted, IsTrusted, extract-IsTrusted}

abbrev until : ℕ → Cached
until exp = record { routing_key = "alice"; exp = exp }

abbrev full : Cache
full = set (set (set (new 1) "t1" (until 10)) "t2" (until 20)) "t3" (until 30)

abbrev unshuffled : List String → List String
unshuffled keys = keys

sweeps : Maps.keys (sweep unshuffled full 15).data_of ≡ "t2" ∷ []
unfolding sweep set new Maps.put Maps.del str_dec
sweeps = refl

-- A parser that accepts one token.
abbrev parser : Parser
parser at token = ite (str_dec token "t1") (some (some "alice", 5)) none

accepts :
    (extract (parser 0) (new 9) "Bearer t1" 0).1
    ≡ found (record { routing_key = "alice"; exp = unix 5 })
unfolding extract bearer_token str_dec new Maps.get is_empty
accepts = refl

extract-IsTrusted_example :
    IsTrusted parser (extract (parser 3) (new 9) "Bearer t1" 3).0
    × ((jwt : Cached)
        → (extract (parser 3) (new 9) "Bearer t1" 3).1 ≡ found jwt
        → (token : String) × ("Bearer t1" ≡ concat "Bearer " token) × Accepted parser token jwt)
extract-IsTrusted_example = extract-IsTrusted parser (new 9) "Bearer t1" 3 none_cached
  where
    none_cached : IsTrusted parser (new 9)
    none_cached token jwt h = absurd (unfold new Maps.get in ground arith)
