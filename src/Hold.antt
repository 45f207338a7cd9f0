-- ===== src/Hold.antt =====
-- internal/proxy/hold.go: holding requests while their keys are in transition. A channel is a number;
-- `closed` lists the closed ones and `next` is one that is not made yet. Each method holds the mutex,
-- and `Wait` is two steps, `enter` and the wake-up, between which other calls may run.
pub mod Laws
mod Tests
use sticky_proxy.Prelude.{
  ℕ, suc, String, Bool, true, false, Option, none, some, List, [], ◌∷◌, ◌≡◌, if◌then◌else◌, ◌==◌,
}
use sticky_proxy.Maps
use sticky_proxy.Maps.{Map}

pub record HoldManager : Type 0 where
  pub holds : Map ℕ
  pub closed : List ℕ
  pub next : ℕ

unfoldable pub new : HoldManager
new = record { holds = []; closed = []; next = 0 }

unfoldable pub is_closed : ℕ → List ℕ → Bool
is_closed c [] = false
is_closed c (d ∷ ds) = if d == c then true else is_closed c ds

unfoldable pub mark_key : HoldManager → String → HoldManager
mark_key h key =
    if Maps.has key h.holds
    then h
    else record h { holds = Maps.put key h.next h.holds; next = suc h.next }

unfoldable pub mark_transition : HoldManager → List String → HoldManager
unfolding mark_key
mark_transition h [] = h
mark_transition h (key ∷ keys) = mark_transition (mark_key h key) keys

-- `holdEntry.close` under its `sync.Once`
unfoldable pub close : ℕ → HoldManager → HoldManager
unfolding is_closed
close c h = if is_closed c h.closed then h else record h { closed = c ∷ h.closed }

unfoldable pub clear_key : HoldManager → String → HoldManager
unfolding close
clear_key h key = elim (Maps.get key h.holds) [
  | none ↦ h
  | some c ↦ let h' = close c h in record h' { holds = Maps.del key h'.holds }
]

unfoldable pub clear_transition : HoldManager → List String → HoldManager
unfolding clear_key
clear_transition h [] = h
clear_transition h (key ∷ keys) = clear_transition (clear_key h key) keys

-- The start of `Wait`: the channel to wait on; without one `Wait` returns false at once.
unfoldable pub enter : HoldManager → String → Option ℕ
enter h key = Maps.get key h.holds

-- The `select` of `Wait` and its answer: the channel is closed, the timer fires, or the context ends.
pub data Wakes (h : HoldManager) (c : ℕ) : Bool → Type 0 where
  completed : is_closed c h.closed ≡ true → Wakes h c true
  timed_out : Wakes h c false
  cancelled : Wakes h c false

pub data Call : Type 0 where
  marks clears : List String → Call

unfoldable pub step : HoldManager → Call → HoldManager
unfolding mark_transition clear_transition
step h (marks keys) = mark_transition h keys
step h (clears keys) = clear_transition h keys

unfoldable pub run : HoldManager → List Call → HoldManager
run h [] = h
run h (c ∷ cs) = run (step h c) cs
