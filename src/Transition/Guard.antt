-- ===== src/Transition/Guard.antt =====
-- When a drain and a rebalance hold a user (internal/proxy/drain.go, internal/proxy/rebalancer.go).
use sticky_proxy.Prelude.{
  ◌≡◌, ◌∙◌, refl, ap, String, Bool, true, false, not, ◌&&◌, ◌||◌, Option, none, some, List, [], ◌∷◌,
  ◌++◌, map, listed, str_dec, ite, arith, Bool-cases, inl, inr,
}
use sticky_proxy.Prelude.Sort.{sort}
use sticky_proxy.Maps
use sticky_proxy.Maps.{Map}
use sticky_proxy.Assignment.{Assignment, BulkAssignEntry}
use sticky_proxy.Rebalancer.{Move}
use sticky_proxy.Accounts.{by_backend}
use sticky_proxy.Transition.Entries.{new_entries-listed}
use sticky_proxy.Transition.{
  Action, mark_transition, clear_transition, bulk_delete, bulk_delete_sticky, bulk_assign,
  send_unassign, send_assign, invalidate, close_conns, publish, remove_backend, swap_conns, unlock,
  Setup, when, forget_users, delete_users, drain_users, move_out, reassign, drain, by_from, keys_of,
  new_entries, reconnect, rebalance_moves, rebalance,
}

-- Reading the calls from the first one on, for one user: each change of the user's assignment and each
-- invalidation comes while the user is held, and at the end the user is not held.
unfoldable pub is_guarded : String → Bool → List Action → Bool
is_guarded u held [] = not held
is_guarded u held (mark_transition us ∷ actions) = is_guarded u (listed u us || held) actions
is_guarded u held (clear_transition us ∷ actions) = is_guarded u (not (listed u us) && held) actions
is_guarded u held (bulk_delete us ∷ actions) =
    (not (listed u us) || held) && is_guarded u held actions
is_guarded u held (bulk_delete_sticky us ∷ actions) =
    (not (listed u us) || held) && is_guarded u held actions
is_guarded u held (bulk_assign entries ∷ actions) =
    (not (Maps.has u entries) || held) && is_guarded u held actions
is_guarded u held (invalidate k ∷ actions) =
    ite (str_dec k u) held true && is_guarded u held actions
is_guarded u held (send_unassign b us ∷ actions) = is_guarded u held actions
is_guarded u held (send_assign b us ∷ actions) = is_guarded u held actions
is_guarded u held (close_conns k ∷ actions) = is_guarded u held actions
is_guarded u held (publish b ∷ actions) = is_guarded u held actions
is_guarded u held (remove_backend b ∷ actions) = is_guarded u held actions
is_guarded u held (swap_conns k b ∷ actions) = is_guarded u held actions
is_guarded u held (unlock ∷ actions) = is_guarded u held actions

forget_users-guarded :
    (u : String) (held has_tracker : Bool) (us : List String) (actions : List Action)
    → is_guarded u held (forget_users has_tracker us ++ actions)
      ≡ (not (listed u us) || held) && is_guarded u held actions
unfolding is_guarded forget_users listed
forget_users-guarded u held has_tracker [] actions = refl
forget_users-guarded u held true (k ∷ us) actions =
    ground (arith, forget_users-guarded u held true us actions)
forget_users-guarded u held false (k ∷ us) actions =
    ground (arith, forget_users-guarded u held false us actions)

delete_users-guarded :
    (d : Setup) (u : String) (held : Bool) (us : List String) (actions : List Action)
    → (listed u us ≡ true → held ≡ true)
    → is_guarded u held (delete_users d us ++ actions) ≡ is_guarded u held actions
unfolding is_guarded delete_users
delete_users-guarded d u held us actions h = ground arith

-- Marked at the start and cleared at the end.
released : (x : Bool) → (not x && (x || false)) ≡ false
released true = refl
released false = refl

move_out-guarded :
    (d : Setup) (backend u : String) (users : List String)
    → d.has_hold ≡ true
    → is_guarded u false (move_out d backend users) ≡ true
unfolding is_guarded move_out
move_out-guarded d backend u users h =
    let x = listed u users || false in
    let end = publish backend ∷ remove_backend backend ∷ clear_transition users ∷ unlock ∷ [] in
    let marked : x ≡ listed u users = ground arith in
    let deleted =
      delete_users-guarded d u x users (forget_users d.has_tracker users ++ end)
        (λ e. marked ∙ e) in
    let forgotten = forget_users-guarded u x d.has_tracker users end in
    rw h (elim (Bool-cases d.has_hooks) [
      | inl e ↦ rw e (deleted ∙ forgotten ∙ ground arith)
      | inr e ↦ rw e (deleted ∙ forgotten ∙ ground arith)
    ])

-- A drain holds each of its users while the user's assignment is deleted and the cache entry dropped,
-- and releases them all; so it does on its errors and without users. There is a hold manager.
pub drain-is_guarded :
    (d : Setup) (backend u : String) (locked : Bool) (users : Option (List String))
    → d.has_hold ≡ true
    → is_guarded u false (drain d backend locked users) ≡ true
unfolding is_guarded drain drain_users
drain-is_guarded d backend u false users h = refl
drain-is_guarded d backend u true none h = refl
drain-is_guarded d backend u true (some []) h = refl
drain-is_guarded d backend u true (some (k ∷ us)) h = move_out-guarded d backend u (k ∷ us) h

-- Calls that concern neither assignments nor the cache.
abbrev is_neutral : Action → Bool
is_neutral (send_unassign b us) = true
is_neutral (send_assign b us) = true
is_neutral (close_conns k) = true
is_neutral (publish b) = true
is_neutral (swap_conns k b) = true
is_neutral _ = false

neutral-guarded :
    (a : Action) (actions : List Action) (u : String) (held : Bool)
    → is_neutral a ≡ true
    → is_guarded u held (a ∷ actions) ≡ is_guarded u held actions
unfolding is_guarded
neutral-guarded (send_unassign b us) actions u held h = refl
neutral-guarded (send_assign b us) actions u held h = refl
neutral-guarded (close_conns k) actions u held h = refl
neutral-guarded (publish b) actions u held h = refl
neutral-guarded (swap_conns k b) actions u held h = refl
neutral-guarded (mark_transition us) actions u held h = cc
neutral-guarded (clear_transition us) actions u held h = cc
neutral-guarded (bulk_delete us) actions u held h = cc
neutral-guarded (bulk_delete_sticky us) actions u held h = cc
neutral-guarded (bulk_assign es) actions u held h = cc
neutral-guarded (invalidate k) actions u held h = cc
neutral-guarded (remove_backend b) actions u held h = cc
neutral-guarded unlock actions u held h = cc

map-guarded {ℓ} :
    {A : Type ℓ} (f : A → Action) (u : String) (held present : Bool) (xs : List A)
    (actions : List Action)
    → ((x : A) → is_neutral (f x) ≡ true)
    → is_guarded u held (when present (map f xs) ++ actions) ≡ is_guarded u held actions
unfolding is_guarded
map-guarded f u held false xs actions h = refl
map-guarded f u held true [] actions h = refl
map-guarded f u held true (x ∷ xs) actions h =
    neutral-guarded (f x) (map f xs ++ actions) u held (h x)
    ∙ map-guarded f u held true xs actions h

invalidates-guarded :
    (u : String) (held : Bool) (ks : List String) (actions : List Action)
    → is_guarded u held (map invalidate ks ++ actions)
      ≡ (not (listed u ks) || held) && is_guarded u held actions
unfolding is_guarded listed
invalidates-guarded u held [] actions = refl
invalidates-guarded u held (k ∷ ks) actions = ground (arith, invalidates-guarded u held ks actions)

reconnect-neutral :
    (swaps : Bool) (key : String) (o : Option String) → is_neutral (reconnect swaps key o) ≡ true
reconnect-neutral true key none = refl
reconnect-neutral true key (some b) = refl
reconnect-neutral false key o = refl

reassign-guarded :
    (d : Setup) (answer : Map BulkAssignEntry → Map String) (assignments : Map Assignment)
    (active : List String) (moves : List Move) (u : String)
    → d.has_hold ≡ true
    → is_guarded u false (reassign d answer assignments active moves) ≡ true
unfolding is_guarded reassign
reassign-guarded d answer assignments active moves u h =
    let keys = keys_of moves in
    let entries = new_entries assignments active moves in
    let assigned = answer entries in
    let x = listed u keys || false in
    let froms = by_from moves [] in
    let finish = clear_transition keys ∷ unlock ∷ [] in
    let connect : String → Action = λ k. reconnect d.swaps k (Maps.get k assigned) in
    let l₄ = when d.has_tracker (map connect keys) ++ finish in
    let l₃ = when d.has_hooks (map (λ g. send_assign g.0 g.1) (by_backend assigned [])) ++ l₄ in
    let l₂ = when d.has_notifier (map publish (Maps.keys froms)) ++ l₃ in
    let l₁ = map invalidate keys ++ l₂ in
    let marked : x ≡ listed u keys = ground arith in
    let e₀ =
      map-guarded (λ g. send_unassign g.0 g.1) u x d.has_hooks froms
        (bulk_delete keys ∷ bulk_assign entries ∷ l₁) (λ g. refl) in
    let e₁ = invalidates-guarded u x keys l₂ in
    let e₂ = map-guarded publish u x d.has_notifier (Maps.keys froms) l₃ (λ b. refl) in
    let e₃ =
      map-guarded (λ g. send_assign g.0 g.1) u x d.has_hooks (by_backend assigned []) l₄
        (λ g. refl) in
    let e₄ =
      map-guarded connect u x d.has_tracker keys finish
        (λ k. reconnect-neutral d.swaps k (Maps.get k assigned)) in
    let e₅ : is_guarded u x l₁ ≡ true =
      e₁ ∙ ap (λ y. (not (listed u keys) || x) && y) (e₂ ∙ e₃ ∙ e₄) ∙ ground arith in
    let fits = new_entries-listed assignments active moves u in rw h (e₀ ∙ ground (arith, fits, e₅))

-- A rebalance holds each moved user while the user's assignment is deleted and made anew and the cache
-- entry dropped, and releases them all; so it does on its errors and without moves, whatever the
-- strategy computes and the store answers. There is a hold manager.
pub rebalance-is_guarded :
    (d : Setup) (strategy : Map Assignment → List String → List Move)
    (answer : Map BulkAssignEntry → Map String) (locked : Bool)
    (assignments : Option (Map Assignment)) (active : List String) (u : String)
    → d.has_hold ≡ true
    → is_guarded u false (rebalance d strategy answer locked assignments active) ≡ true
unfolding is_guarded rebalance rebalance_moves
rebalance-is_guarded d strategy answer false o active u h = refl
rebalance-is_guarded d strategy answer true none active u h = refl
rebalance-is_guarded d strategy answer true (some assignments) active u h =
    moved (strategy assignments (sort active))
  where
    moved :
        (moves : List Move)
        → is_guarded u false (rebalance_moves d answer assignments (sort active) moves) ≡ true
    moved [] = refl
    moved (m ∷ ms) = reassign-guarded d answer assignments (sort active) (m ∷ ms) u h
