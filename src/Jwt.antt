-- ===== src/Jwt.antt =====
-- internal/proxy/jwt.go and internal/proxy/jwt_cache.go: the routing key of a request from its token,
-- and the cache of tokens. The parser of the JWT library, with the secret and the routing claim, is the
-- argument `parse`: `none` for an invalid token, or the routing claim (`none` if it is missing or not
-- a string) and the `exp` claim in seconds after 1970 (0 if it is missing). The shuffle of the sweep is
-- an argument. A maximal size below 0 has the effect of 0 and is not represented.
pub mod Trust
mod Header
pub mod Size
mod Tests
use Prim.Native.Char.{code}
use sticky_proxy.Prelude.{
  ℕ, ◌+◌, ◌*◌, String, Bool, true, false, ◌&&◌, Option, none, some, List, [], ◌∷◌, length, drop,
  ltb, ◌==◌, if◌then◌else◌, is_empty, str_dec, ite,
}
use sticky_proxy.Maps
use sticky_proxy.Maps.{Map}

-- `CachedJWT`; `exp` is a moment in nanoseconds.
pub record Cached : Type 0 where
  pub routing_key : String
  pub exp : ℕ

pub record Cache : Type 0 where
  pub max_size : ℕ
  pub data_of : Map Cached

unfoldable pub new : ℕ → Cache
new max_size = record { max_size = max_size; data_of = [] }

-- the rest of `Get`, after the lookup
unfoldable pub checked_entry : Cache → String → ℕ → Option Cached → Cache × Option Cached
checked_entry c token now none = (c, none)
checked_entry c token now (some e) =
    if ltb e.exp now then (record c { data_of = Maps.del token c.data_of }, none) else (c, some e)

unfoldable pub get : Cache → String → ℕ → Cache × Option Cached
unfolding checked_entry
get c token now = checked_entry c token now (Maps.get token c.data_of)

unfoldable pub set : Cache → String → Cached → Cache
set c token jwt = record c { data_of = Maps.put token jwt c.data_of }

-- the pass of `sweep` that deletes the expired entries and collects the keys of the others
unfoldable pub drop_expired : ℕ → Map Cached → Map Cached
drop_expired now [] = []
drop_expired now ((token, e) ∷ m) =
    let rest = drop_expired now m in if ltb e.exp now then rest else (token, e) ∷ rest

unfoldable pub delete_all : List String → Map Cached → Map Cached
delete_all [] m = m
delete_all (k ∷ ks) m = delete_all ks (Maps.del k m)

unfoldable pub sweep : (List String → List String) → Cache → ℕ → Cache
unfolding drop_expired delete_all
sweep shuffle c now =
    let live = drop_expired now c.data_of in
    let keys = Maps.keys live in
    record c {
      data_of =
          if ltb 0 c.max_size && ltb c.max_size (length keys)
          then delete_all (drop c.max_size (shuffle keys)) live
          else live;
    }

-- `strings.SplitN(authHeader, " ", 2)`: what is before the first space, and what is after it, if any
unfoldable pub before_space : String → String
before_space String.[] = ""
before_space (String.◌∷◌ c s) =
    let rest = before_space s in if code c == 32 then "" else String.◌∷◌ c rest

unfoldable pub after_space : String → Option String
after_space String.[] = none
after_space (String.◌∷◌ c s) = let rest = after_space s in if code c == 32 then some s else rest

unfoldable pub bearer_token : String → Option String
unfolding before_space after_space
bearer_token header = elim (after_space header) [
  | none ↦ none
  | some token ↦ ite (str_dec (before_space header) "Bearer") (some token) none
]

pub data Error : Type 0 where
  invalid_header invalid_token missing_claim : Error

pub data Result : Type 0 where
  found : Cached → Result
  refused : Error → Result

-- `time.Unix(int64(expUnix), 0)`, in nanoseconds after Go's zero time
abbrev pub unix : ℕ → ℕ
unix seconds = (62135596800 + seconds) * 1000000000

-- What the claims of a parsed token give.
unfoldable pub claims_of : Option (Option String × ℕ) → Result
claims_of none = refused invalid_token
claims_of (some (none, exp)) = refused missing_claim
claims_of (some (some key, exp)) =
    if is_empty key
    then refused missing_claim
    else found (record { routing_key = key; exp = unix exp })

unfoldable pub store_found : Cache → String → Result → Cache × Result
store_found c token (refused e) = (c, refused e)
store_found c token (found jwt) = (set c token jwt, found jwt)

module _ (parse : String → Option (Option String × ℕ)) where
  unfoldable pub extract_token : Cache → String → Cache × Option Cached → Cache × Result
  unfolding claims_of store_found
  extract_token c token (c', some jwt) = (c', found jwt)
  extract_token c token (c', none) = store_found c' token (claims_of (parse token))

  unfoldable pub extract_bearer : Cache → ℕ → Option String → Cache × Result
  unfolding get extract_token
  extract_bearer c now none = (c, refused invalid_header)
  extract_bearer c now (some token) = extract_token c token (get c token now)

  -- `extractUserIDFromJWT`
  unfoldable pub extract : Cache → String → ℕ → Cache × Result
  unfolding bearer_token extract_bearer
  extract c header now = extract_bearer c now (bearer_token header)
