-- ===== src/Lock/Tests.antt =====
-- Operations of several replicas over a lock of 60 units of time.
use sticky_proxy.Prelude.{◌≤◌, ◌≡◌, refl, true, false, List, [], ◌∷◌, length, arith}
use sticky_proxy.Lock.{new, is_free, lock, remove, unlock, Call, locks, unlocks, step, run}
use sticky_proxy.Lock.Exclusion.{Holds, Timely, length-run}

abbrev short : List Call
short = locks 1 5 true ∷ locks 2 6 true ∷ unlocks 1 true ∷ locks 2 7 true ∷ unlocks 2 false ∷ []

short_is_Timely : Timely (new 60) short
unfolding Timely Holds new step lock unlock remove is_free
short_is_Timely = (tt, ((omega arith, tt), (tt, (tt, (tt, tt)))))

length-run_example : length (run (new 60) short).holders ≤ 1
length-run_example = length-run 60 short short_is_Timely

-- Operation 1 takes longer than that: its `Unlock` deletes the key of operation 2, and operation 3 runs at
-- the same time as 2.
two_holders :
    (run
      (new 60)
      (locks 1 0 true ∷ locks 2 60 true ∷ unlocks 1 true ∷ locks 3 61 true ∷ [])).holders
    ≡ (3, 61) ∷ (2, 60) ∷ []
unfolding run new step lock unlock remove is_free
two_holders = refl
