-- ===== src/RateLimiter/Level.antt =====
-- The level of a user in internal/proxy/rate_limiter.go: what a call at a moment would find in the
-- bucket, and what the calls make of it.
use native.Mathlib.Nat.{add-mul, mul-le-mul_right}
use sticky_proxy.Prelude.{
  ℕ, ◌+◌, ◌-◌, ◌*◌, ◌≤◌, ◌<◌, ◌≡◌, ◌∙◌, refl, sym, ap, String, Option, none, some, [], ◌∷◌, ltb,
  leb, if◌then◌else◌, str_dec, ite, ap-ite, get_or, arith, inl, inr, Option-cases, Bool-cases,
}
use sticky_proxy.Maps
use sticky_proxy.Maps.{Map}
use sticky_proxy.RateLimiter.{
  UserLimiter, RateLimiter, token, capacity, gain, refill, allow, stale_threshold, drop_idle,
  cleanup, Call, asks, cleans, step,
}

-- What a call at a moment finds in a bucket; a new bucket is full.
abbrev content : RateLimiter → ℕ → Option UserLimiter → ℕ
content rl now none = capacity rl
content rl now (some ul) = refill rl ul now

unfoldable pub level : RateLimiter → String → ℕ → ℕ
level rl user now = content rl now (Maps.get user rl.limiters)

pub gain-split :
    (rl : RateLimiter) (a b c : ℕ) → a ≤ b → b ≤ c → gain rl a c ≡ gain rl a b + gain rl b c
unfolding gain
gain-split rl a b c h k =
    let e : c - a ≡ (b - a) + (c - b) = omega arith in rw e (add-mul (b - a) (c - b) rl.rate)

-- The limiter has no bucket from the future, over its capacity, or twice for a user.
pub record IsValid (rl : RateLimiter) (clock : ℕ) : Type 0 where
  pub past :
      (u : String) (ul : UserLimiter) → Maps.get u rl.limiters ≡ some ul → ul.last_refill ≤ clock
  pub distinct : Maps.Distinct rl.limiters

refill-later :
    (rl : RateLimiter) (ul : UserLimiter) (now later : ℕ)
    → ul.last_refill ≤ now
    → now ≤ later
    → refill rl ul later ≡ (
        if ltb (capacity rl) (refill rl ul now + gain rl now later)
        then capacity rl
        else refill rl ul now + gain rl now later)
unfolding refill
refill-later rl ul now later h k = ground (arith, gain-split rl ul.last_refill now later h k)

-- The level grows with the clock, up to the capacity.
pub level-later :
    (rl : RateLimiter) (user : String) (now later : ℕ)
    → IsValid rl now
    → now ≤ later
    → level rl user later ≡ (
        if ltb (capacity rl) (level rl user now + gain rl now later)
        then capacity rl
        else level rl user now + gain rl now later)
unfolding level
level-later rl user now later v k = elim (Option-cases (Maps.get user rl.limiters)) [
  | inl e ↦ rw e (ground (arith))
  | inr (ul, e) ↦ rw e (refill-later rl ul now later (v.past user ul e) k)
]

refill-now :
    (rl : RateLimiter) (tokens now : ℕ)
    → refill rl (record { tokens = tokens; last_refill = now }) now
      ≡ (if ltb (capacity rl) tokens then capacity rl else tokens)
unfolding refill gain
refill-now rl tokens now =
    let none_passed : now - now ≡ 0 = omega arith in rw none_passed (ground arith)

refill-le-capacity :
    (rl : RateLimiter) (ul : UserLimiter) (now : ℕ) → refill rl ul now ≤ capacity rl
unfolding refill
refill-le-capacity rl ul now = ground arith

content_same :
    (rl : RateLimiter) (m : Map UserLimiter) (now : ℕ) (o : Option UserLimiter)
    → content (record rl { limiters = m }) now o ≡ content rl now o
unfolding refill gain
content_same rl m now none = refl
content_same rl m now (some ul) = refl

pub level-le-capacity :
    (rl : RateLimiter) (user : String) (now : ℕ) → level rl user now ≤ capacity rl
unfolding level
level-le-capacity rl user now = elim (Option-cases (Maps.get user rl.limiters)) [
  | inl e ↦ rw e (omega arith)
  | inr (ul, e) ↦ rw e (refill-le-capacity rl ul now)
]

level-put :
    (rl : RateLimiter) (other user : String) (ul : UserLimiter) (now : ℕ)
    → level (record rl { limiters = Maps.put other ul rl.limiters }) user now
      ≡ ite (str_dec other user) (refill rl ul now) (level rl user now)
unfolding level
level-put rl other user ul now =
    content_same rl (Maps.put other ul rl.limiters) now
      (Maps.get user (Maps.put other ul rl.limiters))
    ∙ ap (content rl now) (Maps.get-put other user ul rl.limiters)
    ∙ ap-ite (content rl now) (str_dec other user) (some ul) (Maps.get user rl.limiters)

-- What a call finds.
abbrev found : RateLimiter → String → ℕ → ℕ
found rl user now =
    refill rl
      (get_or (record { tokens = capacity rl; last_refill = now }) (Maps.get user rl.limiters)) now

found-level : (rl : RateLimiter) (user : String) (now : ℕ) → found rl user now ≡ level rl user now
unfolding level
found-level rl user now = elim (Option-cases (Maps.get user rl.limiters)) [
  | inl e ↦ rw e (refill-now rl (capacity rl) now ∙ ground arith)
  | inr (ul, e) ↦ rw e refl
]

-- A call is let through exactly if the level is one token or more.
pub allow-level :
    (rl : RateLimiter) (user : String) (now : ℕ)
    → (allow rl user now).1 ≡ leb token (level rl user now)
unfolding allow
allow-level rl user now = ap (leb token) (found-level rl user now)

-- What is left of a level after a call.
abbrev spend : ℕ → ℕ
spend n = if leb token n then n - token else n

pub level-allow :
    (rl : RateLimiter) (other user : String) (now : ℕ)
    → level (allow rl other now).0 user now
      ≡ ite (str_dec other user) (spend (level rl other now)) (level rl user now)
unfolding allow
level-allow rl other user now =
    let n = found rl other now in
    let small =
      refill-le-capacity rl
        (get_or (record { tokens = capacity rl; last_refill = now }) (Maps.get other rl.limiters))
        now in
    level-put rl other user (record { tokens = spend n; last_refill = now }) now
    ∙ ap (λ x. ite (str_dec other user) x (level rl user now))
        (refill-now rl (spend n) now ∙ ground (arith, small, found-level rl other now))

-- The cleanup is not seen, where an idle bucket is full by then.
get-drop_idle :
    (now : ℕ) (user : String) (m : Map UserLimiter)
    → Maps.Distinct m
    → Maps.get user (drop_idle now m) ≡ elim (Maps.get user m) [
      | none ↦ none
      | some ul ↦ if ltb stale_threshold (now - ul.last_refill) then none else some ul
    ]
unfolding drop_idle Maps.get
get-drop_idle now user [] d = refl
get-drop_idle now user (e ∷ m) d = ground (arith, get-drop_idle now user m)

-- Five minutes fill a bucket.
abbrev pub FillsInTime : RateLimiter → Type 0
FillsInTime rl = capacity rl ≤ stale_threshold * rl.rate

idle-full :
    (rl : RateLimiter) (ul : UserLimiter) (now : ℕ)
    → FillsInTime rl
    → stale_threshold < now - ul.last_refill
    → refill rl ul now ≡ capacity rl
unfolding refill gain
idle-full rl ul now fills idle =
    let m : stale_threshold * rl.rate ≤ (now - ul.last_refill) * rl.rate =
      mul-le-mul_right rl.rate (omega arith) in
    ground (arith, m)

content-drop_idle :
    (rl : RateLimiter) (now : ℕ) (o : Option UserLimiter)
    → FillsInTime rl
    → content rl now (elim o [
      | none ↦ none
      | some ul ↦ if ltb stale_threshold (now - ul.last_refill) then none else some ul
    ])
      ≡ content rl now o
content-drop_idle rl now none fills = refl
content-drop_idle rl now (some ul) fills =
    elim (Bool-cases (ltb stale_threshold (now - ul.last_refill))) [
      | inl e ↦ rw e (sym (idle-full rl ul now fills (ground arith)))
      | inr e ↦ rw e refl
    ]

-- At the moment of a cleanup the level of no user changes, if five minutes fill a bucket.
pub level-cleanup :
    (rl : RateLimiter) (user : String) (now : ℕ)
    → FillsInTime rl
    → Maps.Distinct rl.limiters
    → level (cleanup rl now) user now ≡ level rl user now
unfolding level cleanup
level-cleanup rl user now fills d =
    content_same rl (drop_idle now rl.limiters) now (Maps.get user (drop_idle now rl.limiters))
    ∙ ap (content rl now) (get-drop_idle now user rl.limiters d)
    ∙ content-drop_idle rl now (Maps.get user rl.limiters) fills

drop_idle-Distinct :
    (now : ℕ) (m : Map UserLimiter) → Maps.Distinct m → Maps.Distinct (drop_idle now m)
unfolding drop_idle
drop_idle-Distinct now [] d = tt
drop_idle-Distinct now (e ∷ m) d = ground (arith, drop_idle-Distinct now m, get-drop_idle now e.0 m)

pub step-IsValid :
    (rl : RateLimiter) (user : String) (clock now : ℕ) (c : Call)
    → clock ≤ now
    → IsValid rl clock
    → IsValid (step rl user now c).0 now
unfolding step allow cleanup
step-IsValid rl user clock now (asks other) le v = record {
  past = λ u ul h. ground (
    arith,
    v.past u ul,
    Maps.get-put other u (record { tokens = spend (found rl other now); last_refill = now })
        rl.limiters,
  );
  distinct = Maps.put-Distinct other _ rl.limiters v.distinct;
}
step-IsValid rl user clock now cleans le v = record {
  past = λ u ul h. ground (arith, v.past u ul, get-drop_idle now u rl.limiters v.distinct);
  distinct = drop_idle-Distinct now rl.limiters v.distinct;
}

-- A call takes from the user's level the tokens of what it lets through.
pub step-level :
    (rl : RateLimiter) (user : String) (now : ℕ) (c : Call)
    → FillsInTime rl
    → Maps.Distinct rl.limiters
    → token * (step rl user now c).1 + level (step rl user now c).0 user now ≡ level rl user now
unfolding step
step-level rl user now (asks other) fills d =
    ground
      (arith, allow-level rl other now, level-allow rl other user now, ap (λ x. level rl x now))
step-level rl user now cleans fills d = ground (arith, level-cleanup rl user now fills d)
