-- ===== src/Hashing.antt =====
-- internal/proxy/hashing.go, and the hash routing of proxy.go and redis.go: a backend is picked by
-- CRC-32 of the routing key over the sorted list of backends.
pub mod Stable
mod Tests
use Prim.Native.Nat.{bit_xor}
use Prim.Native.Char.{code}
use sticky_proxy.Prelude.{
  ℕ, zero, suc, ◌+◌, ◌-◌, ◌*◌, ◌/◌, ◌%◌, ◌^◌, String, Bool, Option, none, some, List, [], ◌∷◌, ◌++◌,
  ltb, ◌==◌, if◌then◌else◌, length, get_elem?, get_or,
}
use sticky_proxy.Prelude.Sort.{sort}

-- `[]byte(s)`: the UTF-8 encoding
utf8 : ℕ → List ℕ
utf8 c =
    if ltb c 128
    then c ∷ []
    else if ltb c 2048
    then (192 + c / 64) ∷ (128 + c % 64) ∷ []
    else if ltb c 65536
    then (224 + c / 4096) ∷ (128 + c / 64 % 64) ∷ (128 + c % 64) ∷ []
    else (240 + c / 262144) ∷ (128 + c / 4096 % 64) ∷ (128 + c / 64 % 64) ∷ (128 + c % 64) ∷ []

unfoldable pub bytes : String → List ℕ
unfolding utf8
bytes String.[] = []
bytes (String.◌∷◌ c s) = utf8 (code c) ++ bytes s

-- `crc32.ChecksumIEEE`, bit by bit
crc_bit : ℕ → ℕ
crc_bit x = if x % 2 == 1 then bit_xor (x / 2) 0xedb88320 else x / 2

crc_bits : ℕ → ℕ → ℕ
unfolding crc_bit
crc_bits zero x = x
crc_bits (suc n) x = crc_bits n (crc_bit x)

crc_bytes : ℕ → List ℕ → ℕ
unfolding crc_bits
crc_bytes crc [] = crc
crc_bytes crc (b ∷ bs) = crc_bytes (crc_bits 8 (bit_xor crc b)) bs

unfoldable pub crc32 : List ℕ → ℕ
unfolding crc_bytes
crc32 bs = bit_xor (crc_bytes 0xffffffff bs) 0xffffffff

unfoldable pub hash_user : String → ℕ
unfolding bytes crc32
hash_user user = crc32 (bytes user)

-- `backends[hash%uint32(len(backends))]`
unfoldable pub pick : ℕ → List String → String
pick hash backends = get_or "" (get_elem? backends (hash % (length backends % 2 ^ 32)))

-- What `ActiveBackends` returns: an error, or the list.
pub data Listing : Type 0 where
  failed : Listing
  listing : List String → Listing

-- `assignViaHash`; `none` is an error, from the store or "no active backends"
unfoldable pub assign_via_hash : Listing → String → Option String
unfolding pick hash_user
assign_via_hash failed key = none
assign_via_hash (listing []) key = none
assign_via_hash (listing (b ∷ bs)) key = some (pick (hash_user key) (sort (b ∷ bs)))

-- `byte(hash), byte(hash >> 8), byte(hash >> 16), byte(hash >> 24)`
unfoldable pub hash_bytes : ℕ → List ℕ
hash_bytes hash = hash % 256 ∷ hash / 256 % 256 ∷ hash / 65536 % 256 ∷ hash / 16777216 % 256 ∷ []

-- `hashFallback` over the cached list; "" is no backend
unfoldable pub hash_fallback : List String → ℕ → String
unfolding hash_bytes crc32 pick
hash_fallback [] hash = ""
hash_fallback (b ∷ bs) hash = pick (crc32 (hash_bytes hash)) (b ∷ bs)
