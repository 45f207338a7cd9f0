-- ===== src/Lock/Exclusion.antt =====
-- Which operations hold the transition lock at the same time (internal/proxy/transition.go and
-- internal/proxy/redis.go).
use sticky_proxy.Prelude.{
  ℕ, ◌+◌, ◌≤◌, ◌<◌, ◌≡◌, refl, Bool, true, false, Option, none, some, List, [], ◌∷◌, All, length,
  leb, ◌==◌, if◌then◌else◌, Bool-cases, inl, inr, arith,
}
use sticky_proxy.Lock.{Lock, new, is_free, lock, remove, unlock, Call, locks, unlocks, step, run}

-- The operation is one of the holders.
unfoldable pub Holds : ℕ → List (ℕ × ℕ) → Type 0
Holds op [] = ⊥
Holds op ((o, since) ∷ hs) = if o == op then Unit else Holds op hs

-- Every call comes while no holder has had the lock for its time to live, and only holders unlock.
unfoldable pub Timely : Lock → List Call → Type 0
unfolding Holds
Timely l [] = Unit
Timely l (locks op now reached ∷ cs) =
    All (λ h. now < h.1 + l.ttl) l.holders × Timely (step l (locks op now reached)) cs
Timely l (unlocks op reached ∷ cs) = Holds op l.holders × Timely (step l (unlocks op reached)) cs

-- At most one holder, whose key is in Redis.
abbrev Alone : Lock → List (ℕ × ℕ) → Type 0
Alone l [] = Unit
Alone l ((o, since) ∷ []) = l.expiry ≡ some (since + l.ttl)
Alone l (h ∷ (k ∷ hs)) = ⊥

-- A key whose time is not over.
blocked : (expiry : Option ℕ) (e now : ℕ) → expiry ≡ some e → now < e → is_free expiry now ≡ false
unfolding is_free
blocked expiry e now h lt = ground arith

lock-Alone :
    (ttl : ℕ) (expiry : Option ℕ) (hs : List (ℕ × ℕ)) (op now : ℕ) (reached : Bool)
    → let l : Lock = record { ttl = ttl; expiry = expiry; holders = hs } in
      All (λ h. now < h.1 + ttl) hs
      → Alone l hs
      → let r = (lock l op now reached).0 in Alone r r.holders
unfolding lock is_free
lock-Alone ttl expiry hs op now false early h = h
lock-Alone ttl none [] op now true early h = refl
lock-Alone ttl (some e) [] op now true early h = elim (Bool-cases (leb e now)) [
  | inl q ↦ rw q refl
  | inr q ↦ rw q tt
]
lock-Alone ttl expiry ((o, since) ∷ []) op now true early h =
    rw (blocked expiry (since + ttl) now h early.0) h
lock-Alone ttl expiry (h₁ ∷ (h₂ ∷ hs)) op now true early h = absurd h

remove-alone : (op o since : ℕ) → Holds op ((o, since) ∷ []) → remove op ((o, since) ∷ []) ≡ []
unfolding Holds remove
remove-alone op o since h = elim (Bool-cases (o == op)) [
  | inl e ↦ rw e refl
  | inr e ↦ absurd (simp (e) at h)
]

unlock-Alone :
    (ttl : ℕ) (expiry : Option ℕ) (hs : List (ℕ × ℕ)) (op : ℕ) (reached : Bool)
    → let l : Lock = record { ttl = ttl; expiry = expiry; holders = hs } in
      let r = unlock l op reached in Holds op hs → Alone l hs → Alone r r.holders
unfolding unlock Holds
unlock-Alone ttl expiry [] op reached held h = absurd held
unlock-Alone ttl expiry ((o, since) ∷ []) op reached held h = rw (remove-alone op o since held) tt
unlock-Alone ttl expiry (h₁ ∷ (h₂ ∷ hs)) op reached held h = absurd h

step-Alone :
    (l : Lock) (c : Call) (cs : List Call)
    → Timely l (c ∷ cs)
    → Alone l l.holders
    → Alone (step l c) (step l c).holders × Timely (step l c) cs
unfolding step Timely
step-Alone l (locks op now reached) cs t h =
    (lock-Alone l.ttl l.expiry l.holders op now reached t.0 h, t.1)
step-Alone l (unlocks op reached) cs t h =
    (unlock-Alone l.ttl l.expiry l.holders op reached t.0 h, t.1)

run-Alone :
    (l : Lock) (cs : List Call)
    → Timely l cs
    → Alone l l.holders
    → Alone (run l cs) (run l cs).holders
unfolding run
run-Alone l [] t h = h
run-Alone l (c ∷ cs) t h = let s = step-Alone l c cs t h in run-Alone (step l c) cs s.1 s.0

length-Alone : (l : Lock) (hs : List (ℕ × ℕ)) → Alone l hs → length hs ≤ 1
length-Alone l [] h = omega arith
length-Alone l (x ∷ []) h = omega arith
length-Alone l (x ∷ (y ∷ hs)) h = absurd h

-- As long as every operation gives the transition lock back before its time to live is over, and only
-- operations that hold it unlock, at most one operation of all replicas holds it at a time.
pub length-run :
    (ttl : ℕ) (cs : List Call) → Timely (new ttl) cs → length (run (new ttl) cs).holders ≤ 1
unfolding new
length-run ttl cs t =
    length-Alone (run (new ttl) cs) (run (new ttl) cs).holders (run-Alone (new ttl) cs t tt)
