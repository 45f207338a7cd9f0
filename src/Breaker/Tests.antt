-- ===== src/Breaker/Tests.antt =====
-- Runs of the breaker, with a threshold of two failures and a cooldown of 30.
use sticky_proxy.Prelude.{◌≡◌, refl, ℕ, List, [], ◌∷◌, true, arith}
use sticky_proxy.Breaker.{
  Call, asked, failed, succeeded, new, is_open, open_circuit, run, step, Breaker,
}
use sticky_proxy.Breaker.Meaning.{blocks, observe_all, is_open-blocks}

abbrev calls : List (ℕ × Call)
calls = (10, failed) ∷ (12, succeeded) ∷ (13, failed) ∷ (14, asked) ∷ (15, failed) ∷ []

opens : (is_open (run (new 2 30) calls) 20).1 ≡ true
unfolding is_open run step new
opens = refl

is_open-blocks_example :
    (is_open (run (new 2 30) calls) 20).1
    ≡ blocks 2 30 (observe_all (record { count = 0; last = 0 }) calls) 20
is_open-blocks_example = is_open-blocks 2 30 15 20 calls (omega arith) (omega arith) (omega arith)

abbrev opened : Breaker
opened = record { failures = 2; state = open_circuit; opened_at = 15; threshold = 2; cooldown = 30 }
