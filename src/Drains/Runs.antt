-- ===== src/Drains/Runs.antt =====
-- How many drains of one backend run (internal/proxy/drain.go), and who passes `AdminAuth`
-- (internal/proxy/admin.go).
use sticky_proxy.Prelude.{
  ℕ, ◌+◌, ◌≤◌, ◌≡◌, ap, String, Bool, true, false, List, [], ◌∷◌, if◌then◌else◌, str_dec, ite,
  arith,
}
use sticky_proxy.Maps
use sticky_proxy.Maps.{Map}
use sticky_proxy.Drains.{
  Drains, new, is_draining, start_drain, finish_drain, cancel_drain, Call, starts, finishes,
  cancels, step, run,
}

-- The ends of drains of the backend among the calls.
unfoldable pub ends_of : String → List Call → ℕ
ends_of b [] = 0
ends_of b (starts c ∷ cs) = ends_of b cs
ends_of b (finishes c ∷ cs) = ite (str_dec c b) 1 0 + ends_of b cs
ends_of b (cancels c ∷ cs) = ends_of b cs

-- 1 if the backend is draining.
abbrev pub running : Bool → ℕ
running b = if b then 1 else 0

step-running :
    (d : Drains) (b : String) (c : Call)
    → running (is_draining d b) + (step d b c).1
      ≤ running (is_draining (step d b c).0 b) + ends_of b (c ∷ [])
unfolding step is_draining start_drain finish_drain cancel_drain ends_of
step-running d b (starts c) =
    ground (arith, Maps.has-put c b false d.draining, ap (λ x. Maps.has x d.draining))
step-running d b (finishes c) = ground (arith, Maps.has-del c b d.draining)
step-running d b (cancels c) =
    ground (arith, Maps.has-put c b true d.draining, ap (λ x. Maps.has x d.draining))

ends_of-cons :
    (b : String) (c : Call) (cs : List Call)
    → ends_of b (c ∷ cs) ≡ ends_of b (c ∷ []) + ends_of b cs
unfolding ends_of
ends_of-cons b (starts c) cs = omega arith
ends_of-cons b (finishes c) cs = omega arith
ends_of-cons b (cancels c) cs = omega arith

run-running :
    (d : Drains) (b : String) (cs : List Call)
    → running (is_draining d b) + (run d b cs).1
      ≤ running (is_draining (run d b cs).0 b) + ends_of b cs
unfolding run
run-running d b [] = unfold ends_of in omega arith
run-running d b (c ∷ cs) =
    omega (arith, step-running d b c, run-running (step d b c).0 b cs, ends_of-cons b c cs)

-- However `StartDrain`, `CancelDrain` and the ends of drains come, at most one drain of a backend runs at
-- a time: those that begin are at most those that have ended, and one if the backend is draining.
pub run-is_draining :
    (b : String) (cs : List Call)
    → (run new b cs).1 ≤ ends_of b cs + running (is_draining (run new b cs).0 b)
run-is_draining b cs = omega (arith, run-running new b cs)
