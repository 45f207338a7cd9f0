-- ===== src/Hold/Tests.antt =====
-- Runs of the hold manager.
use sticky_proxy.Prelude.{◌≡◌, refl, List, [], ◌∷◌, some, str_dec}
use sticky_proxy.Maps
use sticky_proxy.Hold.{Call, marks, clears, new, is_closed, enter, run, step}
use sticky_proxy.Hold.Laws.{clears_key, is_closed-run, new-IsValid, run-IsValid}

abbrev marked : List Call
marked = marks ("alice" ∷ "bob" ∷ []) ∷ []

abbrev later : List Call
later = marks ("alice" ∷ []) ∷ clears ("bob" ∷ []) ∷ clears ("alice" ∷ []) ∷ []

waits : enter (run new marked) "alice" ≡ some 0
unfolding enter run step new Maps.get Maps.put Maps.has str_dec
waits = refl

is_closed-run_example : is_closed 0 (run (run new marked) later).closed ≡ clears_key "alice" later
is_closed-run_example =
    is_closed-run (run new marked) later "alice" 0 (run-IsValid new marked new-IsValid) waits
