-- ===== src/Conns/Tests.antt =====
-- Connections that come and go, and the theorems about them.
use sticky_proxy.Prelude.{◌≡◌, refl, false, List, [], ◌∷◌, str_dec}
use sticky_proxy.Maps
use sticky_proxy.Conns.{
  Call, step, adds, removes, closes, new, run, member, close_conns, swap_conns,
}
use sticky_proxy.Conns.Members.{is_tracked, close_conns-run}

abbrev calls : List Call
calls = adds "alice" 1 ∷ adds "alice" 2 ∷ adds "bob" 3 ∷ removes "alice" 1 ∷ closes "bob" ∷ []

left : run new calls ≡ ("alice", 2 ∷ []) ∷ []
unfolding run step new Maps.put Maps.get Maps.del str_dec
left = refl

close_conns-run_example :
    (member 2 (close_conns (run new calls) "alice").1 ≡ is_tracked "alice" 2 false calls)
    × (member 2 (swap_conns (run new calls) "alice") ≡ is_tracked "alice" 2 false calls)
close_conns-run_example = close_conns-run calls "alice" 2
