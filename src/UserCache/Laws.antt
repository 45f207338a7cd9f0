-- ===== src/UserCache/Laws.antt =====
-- What a `Get` of internal/proxy/user_cache.go answers after each of the other calls.
use sticky_proxy.Prelude.{
  ℕ, ◌+◌, ◌≤◌, ◌≡◌, ◌↔◌, refl, String, true, false, Option, none, some, [], ◌∷◌, leb, if◌then◌else◌,
  listed, str_dec, ite, arith, ◌≢◌,
}
use sticky_proxy.Maps
use sticky_proxy.Maps.{Map}
use sticky_proxy.UserCache.{
  Entry, UserCache, expired, get, set, users_in, users_for_backend, drop_backend, invalidate,
  invalidate_backend, drop_expired, cleanup,
}

-- The answer to a `Get`.
abbrev pub seen : UserCache → String → ℕ → Option String
seen c key now = (get c key now).1

abbrev pub IsCache : UserCache → Type 0
IsCache c = Maps.Distinct c.entries

live : ℕ → Option Entry → Option String
live now none = none
live now (some e) = if expired e now then none else some e.backend

get-live :
    (c : UserCache) (key : String) (now : ℕ) → seen c key now ≡ live now (Maps.get key c.entries)
unfolding get live
get-live c key now = ground arith

abbrev without_backend : String → Option Entry → Option Entry
without_backend backend none = none
without_backend backend (some e) = ite (str_dec e.backend backend) none (some e)

abbrev without_expired : ℕ → Option Entry → Option Entry
without_expired now none = none
without_expired now (some e) = if expired e now then none else some e

get-drop_backend :
    (backend key : String) (m : Map Entry)
    → Maps.Distinct m
    → Maps.get key (drop_backend backend m) ≡ without_backend backend (Maps.get key m)
unfolding drop_backend Maps.get
get-drop_backend backend key [] d = refl
get-drop_backend backend key ((k, e) ∷ m) d = ground (arith, get-drop_backend backend key m d.1)

get-drop_expired :
    (now : ℕ) (key : String) (m : Map Entry)
    → Maps.Distinct m
    → Maps.get key (drop_expired now m) ≡ without_expired now (Maps.get key m)
unfolding drop_expired Maps.get
get-drop_expired now key [] d = refl
get-drop_expired now key ((k, e) ∷ m) d = ground (arith, get-drop_expired now key m d.1)

drop_backend-Distinct :
    (backend : String) (m : Map Entry) → Maps.Distinct m → Maps.Distinct (drop_backend backend m)
unfolding drop_backend
drop_backend-Distinct backend [] d = tt
drop_backend-Distinct backend ((k, e) ∷ m) d =
    ground (arith, drop_backend-Distinct backend m d.1, get-drop_backend backend k m d.1)

drop_expired-Distinct :
    (now : ℕ) (m : Map Entry) → Maps.Distinct m → Maps.Distinct (drop_expired now m)
unfolding drop_expired
drop_expired-Distinct now [] d = tt
drop_expired-Distinct now ((k, e) ∷ m) d =
    ground (arith, drop_expired-Distinct now m d.1, get-drop_expired now k m d.1)

-- A stored backend is answered until its time to live is over, and then missed; other keys are
-- answered as before.
pub get-set :
    (c : UserCache) (key other backend : String) (at now : ℕ)
    → seen (set c key backend at) other now
      ≡ ite
          (str_dec key other)
          (if leb now (at + c.ttl) then some backend else none)
          (seen c other now)
unfolding get set
get-set c key other backend at now =
    ground
      (arith, Maps.get-put key other (record { backend = backend; exp = at + c.ttl }) c.entries)

-- After `InvalidateBackend` no key is answered with that backend, and a key that was answered with
-- another backend still is.
pub get-invalidate_backend :
    (c : UserCache) (backend key : String) (now : ℕ)
    → IsCache c
    → (seen (invalidate_backend c backend) key now ≢ some backend)
      × ((b : String)
          → b ≢ backend
          → seen c key now ≡ some b
          → seen (invalidate_backend c backend) key now ≡ some b)
unfolding get invalidate_backend
get-invalidate_backend c backend key now d = (
  λ h. ground (arith, get-drop_backend backend key c.entries d),
  λ b ne h. ground (arith, get-drop_backend backend key c.entries d),
)

-- The background cleanup, and the deletion that a `Get` of an expired entry makes, are never seen:
-- at any later moment every key is answered as if they had not run.
pub get-cleanup :
    (c : UserCache) (key other : String) (at now : ℕ)
    → IsCache c
    → at ≤ now
    → (seen (cleanup c at) key now ≡ seen c key now)
      × (seen (get c other at).0 key now ≡ seen c key now)
unfolding get cleanup
get-cleanup c key other at now d le = (
  ground (arith, get-drop_expired at key c.entries d),
  ground (arith, Maps.get-del other key c.entries),
)

not-listed :
    (backend key : String) (now : ℕ) (m : Map Entry)
    → Maps.get key m ≡ none
    → listed key (users_in backend now m) ≡ false
unfolding listed users_in Maps.get
not-listed backend key now [] h = refl
not-listed backend key now ((k, e) ∷ m) h = ground (arith, not-listed backend key now m)

users_in-live :
    (backend key : String) (now : ℕ) (m : Map Entry)
    → Maps.Distinct m
    → (listed key (users_in backend now m) ≡ true) ↔ (live now (Maps.get key m) ≡ some backend)
unfolding listed users_in Maps.get live
users_in-live backend key now [] d = ((λ h. cc), (λ h. cc))
users_in-live backend key now ((k, e) ∷ m) d =
    let (there, back) = users_in-live backend key now m d.1 in
    let absent = not-listed backend k now m d.0 in
    ((λ h. ground (arith, there, absent)), (λ h. ground (arith, back, absent)))

-- `UsersForBackend` lists exactly the keys that a `Get` would answer with the backend.
pub users_for_backend-get :
    (c : UserCache) (backend key : String) (now : ℕ)
    → IsCache c
    → (listed key (users_for_backend c backend now) ≡ true) ↔ (seen c key now ≡ some backend)
unfolding users_for_backend
users_for_backend-get c backend key now d =
    rw (get-live c key now) (users_in-live backend key now c.entries d)

-- An invalidation adds no answer, and keeps the cache.
pub get-invalidate_backend_other :
    (c : UserCache) (backend b key : String) (now : ℕ)
    → IsCache c
    → seen (invalidate_backend c backend) key now ≡ some b
    → seen c key now ≡ some b
unfolding get invalidate_backend
get-invalidate_backend_other c backend b key now d h =
    ground (arith, get-drop_backend backend key c.entries d)

pub invalidate_backend-IsCache :
    (c : UserCache) (backend : String) → IsCache c → IsCache (invalidate_backend c backend)
unfolding invalidate_backend
invalidate_backend-IsCache c backend d = drop_backend-Distinct backend c.entries d

pub set-IsCache :
    (c : UserCache) (key backend : String) (now : ℕ) → IsCache c → IsCache (set c key backend now)
unfolding set
set-IsCache c key backend now d = Maps.put-Distinct key _ c.entries d

pub get-IsCache : (c : UserCache) (key : String) (now : ℕ) → IsCache c → IsCache (get c key now).0
unfolding get
get-IsCache c key now d = ground (arith, Maps.del-Distinct key c.entries d)

pub invalidate-IsCache : (c : UserCache) (key : String) → IsCache c → IsCache (invalidate c key)
unfolding invalidate
invalidate-IsCache c key d = Maps.del-Distinct key c.entries d
