-- ===== src/Conns.antt =====
-- internal/proxy/conn_tracker.go: the WebSocket bridges of each routing key. A bridge is a number, a set
-- of bridges a list without repetition; each method holds the mutex while it reads or changes the maps.
-- What `CloseConns` closes and `SwapConns` swaps is returned.
pub mod Members
mod Tests
use sticky_proxy.Prelude.{
  ℕ, String, Bool, true, false, Option, none, some, List, [], ◌∷◌, length, ◌==◌, if◌then◌else◌,
  get_or,
}
use sticky_proxy.Maps
use sticky_proxy.Maps.{Map}

abbrev pub ConnTracker : Type 0
ConnTracker = Map (List ℕ)

unfoldable pub new : ConnTracker
new = []

unfoldable pub member : ℕ → List ℕ → Bool
member b [] = false
member b (c ∷ s) = if c == b then true else member b s

-- `s[bridge] = struct{}{}` and `delete(s, bridge)`
unfoldable pub insert : ℕ → List ℕ → List ℕ
unfolding member
insert b s = if member b s then s else b ∷ s

unfoldable pub without : ℕ → List ℕ → List ℕ
without b [] = []
without b (c ∷ s) = let rest = without b s in if c == b then rest else c ∷ rest

unfoldable pub add : ConnTracker → String → ℕ → ConnTracker
unfolding insert
add ct key b = Maps.put key (insert b (get_or [] (Maps.get key ct))) ct

-- the rest of `Remove`, with the set without the bridge
unfoldable pub store_rest : ConnTracker → String → List ℕ → ConnTracker
store_rest ct key [] = Maps.del key ct
store_rest ct key (b ∷ s) = Maps.put key (b ∷ s) ct

unfoldable pub remove_from : ConnTracker → String → ℕ → Option (List ℕ) → ConnTracker
unfolding without store_rest
remove_from ct key b none = ct
remove_from ct key b (some s) = store_rest ct key (without b s)

unfoldable pub remove : ConnTracker → String → ℕ → ConnTracker
unfolding remove_from
remove ct key b = remove_from ct key b (Maps.get key ct)

unfoldable pub close_conns : ConnTracker → String → ConnTracker × List ℕ
close_conns ct key = (Maps.del key ct, get_or [] (Maps.get key ct))

unfoldable pub swap_conns : ConnTracker → String → List ℕ
swap_conns ct key = get_or [] (Maps.get key ct)

unfoldable pub count : ConnTracker → String → ℕ
count ct key = length (get_or [] (Maps.get key ct))

pub data Call : Type 0 where
  adds removes : String → ℕ → Call
  closes : String → Call

unfoldable pub step : ConnTracker → Call → ConnTracker
unfolding add remove close_conns
step ct (adds key b) = add ct key b
step ct (removes key b) = remove ct key b
step ct (closes key) = (close_conns ct key).0

unfoldable pub run : ConnTracker → List Call → ConnTracker
run ct [] = ct
run ct (c ∷ cs) = run (step ct c) cs
