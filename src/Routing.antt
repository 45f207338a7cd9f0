-- ===== src/Routing.antt =====
-- The assignment of a key through the Redis breaker: `AssignBackend` of internal/proxy/redis.go and
-- `assignViaTable` of internal/proxy/proxy.go. The answers of Redis and of the store are arguments;
-- `now` is the moment of the question to the breaker and `later` that of a recorded failure.
pub mod Fallback
mod Tests
use sticky_proxy.Prelude.{
  ℕ, String, Bool, true, false, not, ◌&&◌, Option, none, some, List, [], ◌∷◌, if◌then◌else◌,
  is_empty,
}
use sticky_proxy.Breaker
use sticky_proxy.Breaker.{Breaker}
use sticky_proxy.Assignment.{Assignment}
use sticky_proxy.Hashing.{hash_fallback, hash_user}

-- The breaker and the cached list of backends of the struct `Redis`.
pub record Redis : Type 0 where
  pub breaker : Breaker
  pub cached_backends : List String

-- What the script or the store answers: an error, nil, a text, or a value of another type.
pub data Answer : Type 0 where
  fails absent unexpected : Answer
  text : String → Answer

-- A returned backend with a nil error ("" if there is none), or an error.
pub data Result : Type 0 where
  backend : String → Result
  error : Result

-- `RefreshBackendList`; `none` is an error of the store
unfoldable pub refresh_backend_list : Redis → Option (List String) → Redis
refresh_backend_list r none = r
refresh_backend_list r (some backends) = record r { cached_backends = backends }

-- The fallback backend, or else what the source returns.
unfoldable pub or_fallback : String → Result → Result
or_fallback fb result = if is_empty fb then result else backend fb

unfoldable pub after_script : Redis → ℕ → String → Answer → Redis × Result
unfolding or_fallback
after_script r later fb fails =
    (record r { breaker = Breaker.record_failure r.breaker later }, or_fallback fb error)
after_script r later fb absent =
    (record r { breaker = Breaker.record_failure r.breaker later }, or_fallback fb (backend ""))
after_script r later fb unexpected =
    (record r { breaker = Breaker.record_success r.breaker }, error)
after_script r later fb (text b) =
    (record r { breaker = Breaker.record_success r.breaker }, backend b)

-- `AssignBackend`, and whether the script has been run.
unfoldable pub assign_backend : Redis → ℕ → ℕ → ℕ → Answer → (Redis × Result) × Bool
unfolding after_script
assign_backend r now later hash answer =
    let (b, opened) = Breaker.is_open r.breaker now in
    let fb = hash_fallback r.cached_backends hash in
    let asked = record r { breaker = b } in
    if opened && not (is_empty fb)
    then ((asked, backend fb), false)
    else (after_script asked later fb answer, true)

-- What `AssignLeastLoaded` of the store answers.
pub data Assigned : Type 0 where
  failing missing : Assigned
  assigned : Assignment → Assigned

abbrev pub answer_of : Assigned → Answer
answer_of failing = fails
answer_of missing = absent
answer_of (assigned a) = text a.backend

plain_result : Answer → Result
plain_result fails = error
plain_result absent = backend ""
plain_result unexpected = error
plain_result (text b) = backend b

-- `assignViaTable`, with Redis or without, and whether the store has been asked.
unfoldable pub assign_via_table :
    Option Redis → String → ℕ → ℕ → Assigned → (Option Redis × Result) × Bool
unfolding plain_result assign_backend
assign_via_table none key now later answer = ((none, plain_result (answer_of answer)), true)
assign_via_table (some r) key now later answer =
    let ((r', result), asked) = assign_backend r now later (hash_user key) (answer_of answer) in
    ((some r', result), asked)
