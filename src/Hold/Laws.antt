-- ===== src/Hold/Laws.antt =====
-- About the waiters of internal/proxy/hold.go: when the channel that one waits on is closed.
use sticky_proxy.Prelude.{
  ℕ, ◌≤◌, ◌<◌, ◌≡◌, ◌≢◌, refl, ◌∙◌, sym, String, Bool, true, false, ◌||◌, some, List, [], ◌∷◌,
  str_dec, arith, if_pos, if_neg, Option-cases, Bool-cases, inl, inr, listed, subst,
}
use sticky_proxy.Maps
use sticky_proxy.Maps.{Map}
use sticky_proxy.Hold.{
  HoldManager, new, is_closed, mark_key, mark_transition, clear_key, clear_transition, enter, Call,
  marks, clears, step, run,
}

-- A held channel is made and not closed, no two keys share one, and no channel of the future is closed.
pub record IsValid (h : HoldManager) : Type 0 where
  pub held_open :
      (k : String) (c : ℕ)
      → Maps.get k h.holds ≡ some c
      → (is_closed c h.closed ≡ false) × (c < h.next)
  pub unshared :
      (j k : String) (c : ℕ) → Maps.get j h.holds ≡ some c → Maps.get k h.holds ≡ some c → j ≡ k
  pub unmade_open : (c : ℕ) → h.next ≤ c → is_closed c h.closed ≡ false

pub new-IsValid : IsValid new
unfolding new Maps.get is_closed
new-IsValid = record {
  held_open = λ k c e. absurd (cc);
  unshared = λ j k c e f. absurd (cc);
  unmade_open = λ c le. refl;
}

mark_key-IsValid : (h : HoldManager) (key : String) → IsValid h → IsValid (mark_key h key)
unfolding mark_key
mark_key-IsValid h key v = elim (Bool-cases (Maps.has key h.holds)) [
  | inl e ↦ rw e v
  | inr e ↦ rw e (record {
    held_open = λ k c g.
        ground (arith, Maps.get-put key k h.next h.holds, v.held_open k c, v.unmade_open h.next);
    unshared = λ j k c f g. ground (
      arith,
      Maps.get-put key k h.next h.holds,
      Maps.get-put key j h.next h.holds,
      v.unshared j k c,
      v.held_open k c,
      v.held_open j c,
    );
    unmade_open = λ c le. v.unmade_open c (omega arith);
  })
]

clear_key-IsValid : (h : HoldManager) (key : String) → IsValid h → IsValid (clear_key h key)
unfolding clear_key
clear_key-IsValid h key v = elim (Option-cases (Maps.get key h.holds)) [
  | inl e ↦ rw (e, clear_key) v
  | inr (d, e) ↦
      rw (e, clear_key, (v.held_open key d e).0)
        (record {
          held_open = λ k c g. ground (
            arith,
            Maps.get-del key k h.holds,
            v.held_open k c,
            v.held_open key d,
            v.unshared key k c,
          );
          unshared = λ j k c f g.
              ground
                (arith, Maps.get-del key k h.holds, Maps.get-del key j h.holds, v.unshared j k c);
          unmade_open = λ c le. ground (arith, v.unmade_open c, v.held_open key d);
        })
]

-- What a call does to a key and its channel.
mark_key-get :
    (h : HoldManager) (j key : String) (c : ℕ)
    → Maps.get key h.holds ≡ some c
    → (Maps.get key (mark_key h j).holds ≡ some c)
      × (is_closed c (mark_key h j).closed ≡ is_closed c h.closed)
unfolding mark_key Maps.has
mark_key-get h j key c e = ground (arith, Maps.get-put j key h.next h.holds)

clear_key_self :
    (h : HoldManager) (key : String) (c : ℕ)
    → Maps.get key h.holds ≡ some c
    → is_closed c (clear_key h key).closed ≡ true
unfolding clear_key is_closed
clear_key_self h key c e = ground arith

clear_key_ne :
    (h : HoldManager) (j key : String) (c : ℕ)
    → IsValid h
    → Maps.get key h.holds ≡ some c
    → j ≢ key
    → (Maps.get key (clear_key h j).holds ≡ some c)
      × (is_closed c (clear_key h j).closed ≡ is_closed c h.closed)
unfolding clear_key is_closed
clear_key_ne h j key c v e ne = ground (arith, Maps.get-del j key h.holds, v.unshared j key c)

clear_key_closed :
    (h : HoldManager) (j : String) (c : ℕ)
    → is_closed c h.closed ≡ true
    → is_closed c (clear_key h j).closed ≡ true
unfolding clear_key is_closed
clear_key_closed h j c e = ground arith

clear_transition_closed :
    (h : HoldManager) (keys : List String) (c : ℕ)
    → is_closed c h.closed ≡ true
    → is_closed c (clear_transition h keys).closed ≡ true
unfolding clear_transition
clear_transition_closed h [] c e = e
clear_transition_closed h (k ∷ ks) c e =
    clear_transition_closed (clear_key h k) ks c (clear_key_closed h k c e)

mark_key_closed : (h : HoldManager) (j : String) → (mark_key h j).closed ≡ h.closed
unfolding mark_key
mark_key_closed h j = ground arith

mark_transition_closed :
    (h : HoldManager) (keys : List String) → (mark_transition h keys).closed ≡ h.closed
unfolding mark_transition
mark_transition_closed h [] = refl
mark_transition_closed h (k ∷ ks) = mark_transition_closed (mark_key h k) ks ∙ mark_key_closed h k

mark_transition-get :
    (h : HoldManager) (keys : List String) (key : String) (c : ℕ)
    → Maps.get key h.holds ≡ some c
    → Maps.get key (mark_transition h keys).holds ≡ some c
unfolding mark_transition
mark_transition-get h [] key c e = e
mark_transition-get h (k ∷ ks) key c e =
    mark_transition-get (mark_key h k) ks key c (mark_key-get h k key c e).0

mark_transition-IsValid :
    (h : HoldManager) (keys : List String) → IsValid h → IsValid (mark_transition h keys)
unfolding mark_transition
mark_transition-IsValid h [] v = v
mark_transition-IsValid h (k ∷ ks) v =
    mark_transition-IsValid (mark_key h k) ks (mark_key-IsValid h k v)

clear_transition-IsValid :
    (h : HoldManager) (keys : List String) → IsValid h → IsValid (clear_transition h keys)
unfolding clear_transition
clear_transition-IsValid h [] v = v
clear_transition-IsValid h (k ∷ ks) v =
    clear_transition-IsValid (clear_key h k) ks (clear_key-IsValid h k v)

pub step-IsValid : (h : HoldManager) (c : Call) → IsValid h → IsValid (step h c)
unfolding step
step-IsValid h (marks keys) v = mark_transition-IsValid h keys v
step-IsValid h (clears keys) v = clear_transition-IsValid h keys v

pub run-IsValid : (h : HoldManager) (cs : List Call) → IsValid h → IsValid (run h cs)
unfolding run
run-IsValid h [] v = v
run-IsValid h (c ∷ cs) v = run-IsValid (step h c) cs (step-IsValid h c v)

abbrev pub Cleared : HoldManager → String → ℕ → Bool → Type 0
Cleared h key c b = (is_closed c h.closed ≡ b) × (b ≡ false → Maps.get key h.holds ≡ some c)

clear_transition-Cleared :
    (h : HoldManager) (keys : List String) (key : String) (c : ℕ)
    → IsValid h
    → Maps.get key h.holds ≡ some c
    → Cleared (clear_transition h keys) key c (listed key keys)
unfolding clear_transition listed
clear_transition-Cleared h [] key c v e = ((v.held_open key c e).0, λ _. e)
clear_transition-Cleared h (k ∷ ks) key c v e = elim (str_dec k key) [
  | yes p ↦ rw (if_pos (str_dec k key) p) (
    clear_transition_closed (clear_key h k) ks c
        (subst (λ x. is_closed c (clear_key h x).closed ≡ true) (sym p) (clear_key_self h key c e)),
    λ bad. absurd (cc),
  )
  | no ne ↦ rw (if_neg (str_dec k key) ne) (
      clear_transition-Cleared (clear_key h k) ks key c (clear_key-IsValid h k v)
        (clear_key_ne h k key c v e ne).0)
]

-- Whether one of the calls clears the key.
unfoldable pub clears_key : String → List Call → Bool
clears_key key [] = false
clears_key key (marks keys ∷ cs) = clears_key key cs
clears_key key (clears keys ∷ cs) = listed key keys || clears_key key cs

run_closed :
    (h : HoldManager) (cs : List Call) (c : ℕ)
    → is_closed c h.closed ≡ true
    → is_closed c (run h cs).closed ≡ true
unfolding run step
run_closed h [] c e = e
run_closed h (marks keys ∷ cs) c e =
    run_closed (mark_transition h keys) cs c (rw (mark_transition_closed h keys) e)
run_closed h (clears keys ∷ cs) c e =
    run_closed (clear_transition h keys) cs c (clear_transition_closed h keys c e)

-- A `Wait` that has entered for a key in transition finds its channel closed exactly if a later
-- `ClearTransition` names the key: no waiter is forgotten, and none is released by a call about other
-- keys or by further `MarkTransition` calls.
pub is_closed-run :
    (h : HoldManager) (cs : List Call) (key : String) (c : ℕ)
    → IsValid h
    → enter h key ≡ some c
    → is_closed c (run h cs).closed ≡ clears_key key cs
unfolding run step enter clears_key
is_closed-run h [] key c v e = (v.held_open key c e).0
is_closed-run h (marks keys ∷ cs) key c v e =
    is_closed-run (mark_transition h keys) cs key c (mark_transition-IsValid h keys v)
      (mark_transition-get h keys key c e)
is_closed-run h (clears keys ∷ cs) key c v e = elim (Bool-cases (listed key keys)) [
  | inl named ↦ rw named (
      run_closed (clear_transition h keys) cs c
        ((clear_transition-Cleared h keys key c v e).0 ∙ named))
  | inr other ↦ rw other (
      is_closed-run (clear_transition h keys) cs key c (clear_transition-IsValid h keys v)
        ((clear_transition-Cleared h keys key c v e).1 other))
]
