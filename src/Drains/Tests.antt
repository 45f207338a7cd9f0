-- ===== src/Drains/Tests.antt =====
-- Runs of the drains and of the administration's authorisation.
use sticky_proxy.Prelude.{
  ◌+◌, ◌≤◌, ◌≡◌, ◌≢◌, ◌↔◌, refl, String, List, [], ◌∷◌, str_dec, trim_prefix, is_empty,
}
use sticky_proxy.Maps
use sticky_proxy.Drains.{
  new, is_draining, Call, starts, finishes, cancels, run, step, start_drain, finish_drain,
  cancel_drain, admin_auth, passed, compare_token,
}
use sticky_proxy.Drains.Runs.{ends_of, running, run-is_draining}
use sticky_proxy.Drains.Auth.{admin_auth-passed}

abbrev calls : List Call
calls = starts "a" ∷ starts "a" ∷ cancels "a" ∷ finishes "a" ∷ starts "b" ∷ starts "a" ∷ []

begun : (run new "a" calls).1 ≡ 2
unfolding new run step start_drain finish_drain cancel_drain Maps.has Maps.get Maps.put Maps.del
    str_dec
begun = refl

run-is_draining_example :
    (run new "a" calls).1 ≤ ends_of "a" calls + running (is_draining (run new "a" calls).0 "a")
run-is_draining_example = run-is_draining "a" calls

refusals : (admin_auth "secret" "Bearer secret" ≡ passed) × (admin_auth "" "Bearer " ≢ passed)
unfolding admin_auth trim_prefix compare_token str_dec is_empty
refusals = (refl, (λ h. cc))

admin_auth-passed_example :
    (admin_auth "secret" "Bearer secret" ≡ passed)
    ↔ (◌≢◌ {A = String} "secret" "" × ◌≡◌ {A = String} "Bearer secret" "Bearer secret")
admin_auth-passed_example = admin_auth-passed "secret" "Bearer secret"
