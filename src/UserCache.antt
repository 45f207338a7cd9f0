-- ===== src/UserCache.antt =====
-- internal/proxy/user_cache.go: the local cache from routing keys to backends. Moments are
-- nanoseconds and arguments of the calls; a `Range` that deletes is one pass over the map.
pub mod Laws
mod Tests
use sticky_proxy.Prelude.{
  ℕ, ◌+◌, String, Bool, true, false, not, ◌&&◌, Option, none, some, List, [], ◌∷◌, ltb,
  if◌then◌else◌, str_dec, ite,
}
use sticky_proxy.Maps
use sticky_proxy.Maps.{Map}

pub record Entry : Type 0 where
  pub backend : String
  pub exp : ℕ

pub record UserCache : Type 0 where
  pub ttl : ℕ
  pub entries : Map Entry

unfoldable pub new : ℕ → UserCache
new ttl = record { ttl = ttl; entries = [] }

-- `time.Now().After(entry.exp)`
abbrev pub expired : Entry → ℕ → Bool
expired e now = ltb e.exp now

-- `none` is `ErrCacheMiss`.
unfoldable pub get : UserCache → String → ℕ → UserCache × Option String
get c key now = elim (Maps.get key c.entries) [
  | none ↦ (c, none)
  | some e ↦
      if expired e now
      then (record c { entries = Maps.del key c.entries }, none)
      else (c, some e.backend)
]

unfoldable pub set : UserCache → String → String → ℕ → UserCache
set c key backend now = record c {
  entries = Maps.put key (record { backend = backend; exp = now + c.ttl }) c.entries;
}

unfoldable pub invalidate : UserCache → String → UserCache
invalidate c key = record c { entries = Maps.del key c.entries }

-- the pass of `UsersForBackend`; `!entry.exp.Before(now)`
unfoldable pub users_in : String → ℕ → Map Entry → List String
users_in backend now [] = []
users_in backend now ((key, e) ∷ m) =
    let rest = users_in backend now m in
    ite (str_dec e.backend backend) (if not (ltb e.exp now) then key ∷ rest else rest) rest

unfoldable pub users_for_backend : UserCache → String → ℕ → List String
users_for_backend c backend now = users_in backend now c.entries

-- the pass of `InvalidateBackend`
unfoldable pub drop_backend : String → Map Entry → Map Entry
drop_backend backend [] = []
drop_backend backend ((key, e) ∷ m) =
    let rest = drop_backend backend m in ite (str_dec e.backend backend) rest ((key, e) ∷ rest)

unfoldable pub invalidate_backend : UserCache → String → UserCache
invalidate_backend c backend = record c { entries = drop_backend backend c.entries }

-- the pass of `cleanupLoop`
unfoldable pub drop_expired : ℕ → Map Entry → Map Entry
drop_expired now [] = []
drop_expired now ((key, e) ∷ m) =
    let rest = drop_expired now m in if expired e now then rest else (key, e) ∷ rest

unfoldable pub cleanup : UserCache → ℕ → UserCache
cleanup c now = record c { entries = drop_expired now c.entries }
