-- ===== src/MemoryStore/Tests.antt =====
-- A run of the memory store.
use sticky_proxy.Prelude.{◌≡◌, refl, List, [], ◌∷◌, str_dec}
use sticky_proxy.Maps
use sticky_proxy.MemoryStore.{Call, adds, removes, new, run, step}

abbrev calls : List Call
calls = adds "b2" ∷ adds "b3" ∷ adds "b1" ∷ removes "b3" ∷ adds "b2" ∷ []

keys_now : Maps.keys (run new calls).backends ≡ "b2" ∷ "b1" ∷ []
unfolding run step new Maps.get Maps.put Maps.del Maps.has str_dec
keys_now = refl
