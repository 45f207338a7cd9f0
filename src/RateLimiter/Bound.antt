-- ===== src/RateLimiter/Bound.antt =====
-- How many requests internal/proxy/rate_limiter.go lets through, and when it lets one through again.
use sticky_proxy.Prelude.{
  ℕ, ◌+◌, ◌-◌, ◌*◌, ◌≤◌, ◌<◌, ◌≡◌, ◌∙◌, refl, ap, String, Bool, true, false, List, [], ◌∷◌, All,
  str_dec, ite, arith, Timed,
}
use sticky_proxy.Maps
use sticky_proxy.RateLimiter.{
  RateLimiter, new, token, capacity, gain, allow, stale_threshold, Call, asks, cleans, step, run,
}
use sticky_proxy.RateLimiter.Level.{
  level, IsValid, FillsInTime, gain-split, level-later, level-le-capacity, allow-level,
  step-IsValid, step-level,
}

step-config :
    (rl : RateLimiter) (user : String) (now : ℕ) (c : Call)
    → ((step rl user now c).0.rate ≡ rl.rate) × ((step rl user now c).0.burst ≡ rl.burst)
unfolding step allow
step-config rl user now (asks other) = (refl, refl)
step-config rl user now cleans = unfold sticky_proxy.RateLimiter.cleanup in (refl, refl)

step-gain :
    (rl : RateLimiter) (user : String) (now a b : ℕ) (c : Call)
    → gain (step rl user now c).0 a b ≡ gain rl a b
unfolding gain
step-gain rl user now a b c = ap (λ r. (b - a) * r) (step-config rl user now c).0

step-FillsInTime :
    (rl : RateLimiter) (user : String) (now : ℕ) (c : Call)
    → FillsInTime rl
    → FillsInTime (step rl user now c).0
step-FillsInTime rl user now c fills =
    rw ((step-config rl user now c).0, (step-config rl user now c).1) fills

later-IsValid : (rl : RateLimiter) (clock now : ℕ) → clock ≤ now → IsValid rl clock → IsValid rl now
later-IsValid rl clock now le v = record {
  past = λ u ul h. omega (arith, v.past u ul h);
  distinct = v.distinct;
}

Timed-le : (a b : ℕ) (cs : List (ℕ × Call)) → Timed a b cs → a ≤ b
Timed-le a b [] t = t
Timed-le a b ((n, c) ∷ cs) t = omega (arith, t.0, Timed-le n b cs t.1)

-- The tokens that are spent and left are no more than those that were there and came in.
run-level :
    (rl : RateLimiter) (user : String) (clock end : ℕ) (cs : List (ℕ × Call))
    → FillsInTime rl
    → IsValid rl clock
    → Timed clock end cs
    → token * (run rl user cs).1 + level (run rl user cs).0 user end
      ≤ level rl user clock + gain rl clock end
unfolding run
run-level rl user clock end [] fills v t = ground (arith, level-later rl user clock end v t)
run-level rl user clock end ((now, c) ∷ cs) fills v t =
    let le : now ≤ end = Timed-le now end cs t.1 in
    let v' = later-IsValid rl clock now t.0 v in
    let here = (step rl user now c).0 in
    let rest =
      run-level here user now end cs (step-FillsInTime rl user now c fills)
        (step-IsValid rl user clock now c t.0 v) t.1 in
    ground (
      arith,
      rest,
      step-level rl user now c fills v.distinct,
      level-later rl user clock now v t.0,
      step-gain rl user now now end c,
      gain-split rl clock now end t.0 le,
    )

new-IsValid : (rate burst clock : ℕ) → IsValid (new rate burst) clock
unfolding new Maps.get
new-IsValid rate burst clock = record { past = λ u ul h. absurd (ground arith); distinct = tt }

-- The call is not a request of the user.
unfoldable pub is_other : String → Call → Bool
is_other user (asks other) = ite (str_dec other user) false true
is_other user cleans = true

step-other :
    (rl : RateLimiter) (user : String) (now : ℕ) (c : Call)
    → is_other user c ≡ true
    → (step rl user now c).1 ≡ 0
unfolding step is_other
step-other rl user now (asks other) h = ground arith
step-other rl user now cleans h = refl

run-waits :
    (rl : RateLimiter) (user : String) (clock end n : ℕ) (cs : List (ℕ × Call))
    → FillsInTime rl
    → IsValid rl clock
    → Timed clock end cs
    → All (λ c. is_other user c.1 ≡ true) cs
    → n ≤ capacity rl
    → n ≤ level rl user clock + gain rl clock end
    → n ≤ level (run rl user cs).0 user end
unfolding run
run-waits rl user clock end n [] fills v t quiet small enough =
    ground (arith, level-later rl user clock end v t)
run-waits rl user clock end n ((now, c) ∷ cs) fills v t quiet small enough =
    let le : now ≤ end = Timed-le now end cs t.1 in
    let v' = later-IsValid rl clock now t.0 v in
    let same = step-level rl user now c fills v.distinct in
    run-waits (step rl user now c).0 user now end n cs (step-FillsInTime rl user now c fills)
      (step-IsValid rl user clock now c t.0 v) t.1 quiet.1
      (rw ((step-config rl user now c).1) small)
      (ground (
        arith,
        same,
        step-other rl user now c quiet.0,
        level-later rl user clock now v t.0,
        step-gain rl user now now end c,
        gain-split rl clock now end t.0 le,
      ))

run-IsValid :
    (rl : RateLimiter) (user : String) (clock end : ℕ) (cs : List (ℕ × Call))
    → IsValid rl clock
    → Timed clock end cs
    → IsValid (run rl user cs).0 end
unfolding run
run-IsValid rl user clock end [] v t = later-IsValid rl clock end t v
run-IsValid rl user clock end ((now, c) ∷ cs) v t =
    run-IsValid (step rl user now c).0 user now end cs (step-IsValid rl user clock now c t.0 v) t.1

run-config :
    (rl : RateLimiter) (user : String) (cs : List (ℕ × Call))
    → ((run rl user cs).0.rate ≡ rl.rate) × ((run rl user cs).0.burst ≡ rl.burst)
unfolding run
run-config rl user [] = (refl, refl)
run-config rl user ((now, c) ∷ cs) =
    let here = step-config rl user now c in
    let rest = run-config (step rl user now c).0 user cs in (rest.0 ∙ here.0, rest.1 ∙ here.1)

-- Whatever calls came before, in a span of time a user gets through with at most `burst` requests and
-- `rate` more for each second of it, whatever other users do and whenever the cleanup runs. The calls come
-- in the order of the clock, and five minutes are enough to fill a bucket.
pub allowed-bound :
    (rate burst start since end : ℕ) (user : String) (before cs : List (ℕ × Call))
    → FillsInTime (new rate burst)
    → Timed start since before
    → Timed since end cs
    → token * (run (run (new rate burst) user before).0 user cs).1
      ≤ burst * token + (end - since) * rate
allowed-bound rate burst start since end user before cs fills t u =
    let rl = (run (new rate burst) user before).0 in
    let same = run-config (new rate burst) user before in
    let v = run-IsValid (new rate burst) user start since before (new-IsValid rate burst start) t in
    let fills' : FillsInTime rl = rw (same.0, same.1) fills in
    let room : capacity rl ≡ burst * token = rw same.1 (unfold new in refl) in
    let came : gain rl since end ≡ (end - since) * rate =
      unfold gain in rw same.0 (unfold new in refl) in
    omega (
      arith,
      run-level rl user since end cs fills' v u,
      level-le-capacity rl user since,
      room,
      came,
    )

-- After any calls, a user who then makes no request for as long as one token takes gets through with
-- the next one, whatever the others do meanwhile. The calls come in the order of the clock, the burst is
-- at least 1, and five minutes are enough to fill a bucket.
pub allow-waited :
    (rate burst start since now : ℕ) (user : String) (before wait : List (ℕ × Call))
    → FillsInTime (new rate burst)
    → Timed start since before
    → Timed since now wait
    → All (λ c. is_other user c.1 ≡ true) wait
    → 0 < burst
    → token ≤ (now - since) * rate
    → (allow (run (run (new rate burst) user before).0 user wait).0 user now).1 ≡ true
allow-waited rate burst start since now user before wait fills t u quiet pos long =
    let rl = (run (new rate burst) user before).0 in
    let same = run-config (new rate burst) user before in
    let v = run-IsValid (new rate burst) user start since before (new-IsValid rate burst start) t in
    let fills' : FillsInTime rl = rw (same.0, same.1) fills in
    let room : token ≤ capacity rl = rw same.1 (unfold new in omega arith) in
    let came : token ≤ gain rl since now = unfold gain in rw same.0 (unfold new in long) in
    allow-level (run rl user wait).0 user now
    ∙ ground (arith, run-waits rl user since now token wait fills' v u quiet room (omega arith))
