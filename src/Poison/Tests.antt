-- ===== src/Poison/Tests.antt =====
-- Runs of the detector: three reassignments within five seconds quarantine an account.
use sticky_proxy.Prelude.{◌≡◌, refl, ℕ, List, [], ◌∷◌, true, false, arith, str_dec}
use sticky_proxy.Maps
use sticky_proxy.Poison.{
  Call, reassigned, pruned, new, stale, trim, run, step, is_quarantined, prune_events,
}
use sticky_proxy.Poison.Refinement.{spec_run, watching, is_out, is_quarantined-spec_run}

abbrev calls : List (ℕ × Call)
calls =
    (10, reassigned "alice")
    ∷ (11, reassigned "bob")
    ∷ (12, reassigned "alice")
    ∷ (14, pruned)
    ∷ (15, reassigned "alice")
    ∷ []

quarantines : is_quarantined (run (new 3 5) calls) "alice" ≡ true
unfolding is_quarantined run step new trim stale prune_events Maps.get Maps.put Maps.del Maps.has
    str_dec
quarantines = refl

spares : is_quarantined (run (new 3 5) calls) "bob" ≡ false
unfolding is_quarantined run step new trim stale prune_events Maps.get Maps.put Maps.del Maps.has
    str_dec
spares = refl

is_quarantined-spec_run_example :
    is_quarantined (run (new 3 5) calls) "alice" ≡ is_out (spec_run 3 5 "alice" (watching []) calls)
is_quarantined-spec_run_example = is_quarantined-spec_run 3 5 20 "alice" calls (omega arith)
