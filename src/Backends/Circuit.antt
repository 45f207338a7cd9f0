-- ===== src/Backends/Circuit.antt =====
-- When the circuit of a backend is open: `Available` and requests of internal/proxy/backends.go.
use sticky_proxy.Prelude.{
  ℕ, ◌+◌, ◌≤◌, ◌<◌, ◌≡◌, ◌≢◌, refl, ◌∙◌, Bool, true, false, List, [], ◌∷◌, leb, if◌then◌else◌,
  arith, ◌&&◌, subst, String, Option, none, some, str_dec, ite, if_pos, if_neg, get_or, not, All,
}
use sticky_proxy.Maps
use sticky_proxy.Maps.{Map}
use sticky_proxy.Backends.{
  Failure, Manager, fresh, count_failure, record_failure, available, Outcome, proxy_request, Call,
  checked, failed, step, run, new, backend_error,
}

-- The failures of one backend since the last check that found it available, and the last of them.
pub record Streak : Type 0 where
  pub count : ℕ
  pub last : ℕ

unfoldable pub blocks : ℕ → ℕ → Streak → ℕ → Bool
blocks threshold cooldown s now = leb threshold s.count && leb now (s.last + cooldown)

module _ (threshold cooldown : ℕ) (backend : String) where
  unfoldable pub observe : Streak → ℕ × Call → Streak
  unfolding blocks
  observe s (now, checked b) =
      ite (str_dec b backend)
        (if blocks threshold cooldown s now then s else record s { count = 0 }) s
  observe s (now, failed b) = ite (str_dec b backend) (record { count = s.count + 1; last = now }) s

  unfoldable pub observe_all : Streak → List (ℕ × Call) → Streak
  observe_all s [] = s
  observe_all s (c ∷ cs) = observe_all (observe s c) cs

-- The moments do not decrease, and all come after Go's zero time.
abbrev pub Timed : ℕ → ℕ → List (ℕ × Call) → Type 0
Timed clock end [] = clock ≤ end
Timed clock end ((now, c) ∷ cs) = (0 < now) × (clock ≤ now) × Timed now end cs

abbrev pub EntryFits : ℕ → ℕ → Option Failure → Streak → Type 0
EntryFits threshold cooldown none s = s.count ≡ 0
EntryFits threshold cooldown (some f) s =
    (f.count ≡ s.count) × (f.until ≡ (if leb threshold s.count then s.last + cooldown else 0))

abbrev pub Follows : Manager → String → Streak → Type 0
Follows b backend s =
    EntryFits b.eviction_threshold b.eviction_cooldown (Maps.get backend b.failures) s

available-blocks :
    (b : Manager) (backend : String) (s : Streak) (now : ℕ)
    → 0 < b.eviction_threshold
    → 0 < now
    → Follows b backend s
    → (available b backend now).1 ≡ not (blocks b.eviction_threshold b.eviction_cooldown s now)
unfolding available blocks
available-blocks b backend s now live pos f = ground arith

checked-Follows :
    (b : Manager) (backend : String) (s : Streak) (now : ℕ)
    → 0 < b.eviction_threshold
    → 0 < now
    → Follows b backend s
    → Follows (available b backend now).0 backend (
        if blocks b.eviction_threshold b.eviction_cooldown s now then s else record s { count = 0 })
unfolding available blocks
checked-Follows b backend s now live pos f = ground (arith, Maps.get-del_self backend b.failures)

failed-Follows :
    (b : Manager) (backend : String) (s : Streak) (now : ℕ)
    → Follows b backend s
    → Follows (record_failure b backend now).0 backend (record { count = s.count + 1; last = now })
unfolding record_failure
failed-Follows b backend s now f = ground (
  arith,
  Maps.get-put_self backend (count_failure b (get_or fresh (Maps.get backend b.failures)) now)
      b.failures,
)

other-Follows :
    (b q : Manager) (backend : String) (s : Streak)
    → q.eviction_threshold ≡ b.eviction_threshold
    → q.eviction_cooldown ≡ b.eviction_cooldown
    → Maps.get backend q.failures ≡ Maps.get backend b.failures
    → Follows b backend s
    → Follows q backend s
other-Follows b q backend s et ec eg f = rw (et, ec, eg) f

checked-get_ne :
    (b : Manager) (k backend : String) (now : ℕ)
    → k ≢ backend
    → Maps.get backend (available b k now).0.failures ≡ Maps.get backend b.failures
unfolding available
checked-get_ne b k backend now ne = ground (arith, Maps.get-del_ne k backend b.failures)

failed-get_ne :
    (b : Manager) (k backend : String) (now : ℕ)
    → k ≢ backend
    → Maps.get backend (record_failure b k now).0.failures ≡ Maps.get backend b.failures
unfolding record_failure
failed-get_ne b k backend now ne = Maps.get-put_ne k backend _ b.failures ne

step-config :
    (b : Manager) (c : ℕ × Call)
    → ((step b c).eviction_threshold ≡ b.eviction_threshold)
      × ((step b c).eviction_cooldown ≡ b.eviction_cooldown)
unfolding step
step-config b (now, checked k) = ground arith
step-config b (now, failed k) = ground arith

step-Follows :
    (b : Manager) (backend : String) (s : Streak) (now : ℕ) (c : Call)
    → 0 < b.eviction_threshold
    → 0 < now
    → Follows b backend s
    → Follows
        (step b (now, c))
        backend
        (observe b.eviction_threshold b.eviction_cooldown backend s (now, c))
unfolding observe
step-Follows b backend s now (checked k) live pos f = elim (str_dec k backend) [
  | yes e ↦
      rw (if_pos (str_dec k backend) e, e)
        (unfold step in checked-Follows b backend s now live pos f)
  | no ne ↦ rw (if_neg (str_dec k backend) ne) (
      other-Follows b (step b (now, checked k)) backend s (step-config b (now, checked k)).0
        (step-config b (now, checked k)).1 (unfold step in checked-get_ne b k backend now ne) f)
]
step-Follows b backend s now (failed k) live pos f = elim (str_dec k backend) [
  | yes e ↦ rw (if_pos (str_dec k backend) e, e) (unfold step in failed-Follows b backend s now f)
  | no ne ↦ rw (if_neg (str_dec k backend) ne) (
      other-Follows b (step b (now, failed k)) backend s (step-config b (now, failed k)).0
        (step-config b (now, failed k)).1 (unfold step in failed-get_ne b k backend now ne) f)
]

run-available :
    (threshold cooldown : ℕ) (b : Manager) (backend : String) (s : Streak) (clock end now : ℕ)
    (cs : List (ℕ × Call))
    → b.eviction_threshold ≡ threshold
    → b.eviction_cooldown ≡ cooldown
    → 0 < threshold
    → Timed clock end cs
    → 0 < now
    → Follows b backend s
    → (available (run b cs) backend now).1
      ≡ not (blocks threshold cooldown (observe_all threshold cooldown backend s cs) now)
unfolding run observe_all
run-available threshold cooldown b backend s clock end now [] et ec live t pos f =
    subst (λ x. (available b backend now).1 ≡ not (blocks x cooldown s now)) et
      (subst (λ x. (available b backend now).1 ≡ not (blocks b.eviction_threshold x s now)) ec
        (available-blocks b backend s now (omega arith) pos f))
run-available threshold cooldown b backend s clock end now ((at, c) ∷ cs) et ec live t pos f =
    run-available threshold cooldown (step b (at, c)) backend _ at end now cs
      ((step-config b (at, c)).0 ∙ et) ((step-config b (at, c)).1 ∙ ec) live t.2 pos
      (subst (λ x. Follows (step b (at, c)) backend (observe x cooldown backend s (at, c))) et
        (subst
          (λ x. Follows (step b (at, c)) backend (observe b.eviction_threshold x backend s (at, c)))
          ec (step-Follows b backend s at c (omega arith) t.0 f)))

-- After any checks and failures of any backends, in the order of the clock: `Available` refuses a
-- backend exactly if at least `threshold` failures of it were recorded since the last check that
-- found it available, and the last of them is at most a cooldown ago. Calls about other backends do
-- not count. The threshold is positive, and `now` is after Go's zero time.
pub available-run :
    (threshold cooldown end now : ℕ) (backend : String) (cs : List (ℕ × Call))
    → 0 < threshold
    → Timed 0 end cs
    → 0 < now
    → (available (run (new threshold cooldown) cs) backend now).1
      ≡ not (
          blocks threshold cooldown
            (observe_all threshold cooldown backend (record { count = 0; last = 0 }) cs)
            now)
unfolding new Maps.get
available-run threshold cooldown end now backend cs live t pos =
    run-available threshold cooldown (new threshold cooldown) backend _ 0 end now cs refl refl live
      t pos refl

-- Requests to one backend, one after the other, each with the moments of its check and of its
-- failure; every exchange with the backend fails.
unfoldable pub send : Manager → String → List (ℕ × ℕ) → List Outcome
send b backend [] = []
send b backend ((now, later) ∷ rs) =
    let (b', outcome) = proxy_request b backend now later true false in outcome ∷ send b' backend rs

abbrev NotOpened : Option Failure → Type 0
NotOpened none = Unit {0}
NotOpened (some f) = f.until ≡ 0

request-NotOpened :
    (b : Manager) (backend : String) (now later : ℕ)
    → 1 < b.eviction_threshold
    → 0 < now
    → NotOpened (Maps.get backend b.failures)
    → let r = proxy_request b backend now later true false in
      (r.1 ≡ backend_error)
      × NotOpened (Maps.get backend r.0.failures)
      × (r.0.eviction_threshold ≡ b.eviction_threshold)
unfolding proxy_request
request-NotOpened b backend now later live pos f =
    grind (arith, Maps.get-put_self, Maps.get-del_self)

abbrev pub AllLate : List (ℕ × ℕ) → Type 0
AllLate = All (λ r. 0 < r.0)

send-NotOpened :
    (b : Manager) (backend : String) (rs : List (ℕ × ℕ))
    → 1 < b.eviction_threshold
    → AllLate rs
    → NotOpened (Maps.get backend b.failures)
    → All (λ o. o ≡ backend_error) (send b backend rs)
unfolding send
send-NotOpened b backend [] live t f = tt
send-NotOpened b backend ((now, later) ∷ rs) live t f =
    let (failing, still, same) = request-NotOpened b backend now later live t.0 f in
    (
      failing,
      send-NotOpened (proxy_request b backend now later true false).0 backend rs (omega arith) t.1
          still,
    )

-- With a threshold of two or more, requests that come one after the other never open the circuit: each
-- check finds the count of the request before and deletes it, so every one of any number of failing
-- requests is sent to the backend again.
pub send-never_opens :
    (threshold cooldown : ℕ) (backend : String) (rs : List (ℕ × ℕ))
    → 1 < threshold
    → AllLate rs
    → All (λ o. o ≡ backend_error) (send (new threshold cooldown) backend rs)
unfolding new Maps.get
send-never_opens threshold cooldown backend rs live t =
    send-NotOpened (new threshold cooldown) backend rs live t tt
