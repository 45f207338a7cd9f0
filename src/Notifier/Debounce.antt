-- ===== src/Notifier/Debounce.antt =====
-- What a received invalidation does to the cache (internal/proxy/cache_notifier.go).
use sticky_proxy.Prelude.{
  ℕ, ◌+◌, ltb, length, ◌≤◌, ◌≡◌, ◌≢◌, ◌⊎◌, inl, inr, refl, ap, subst, ◌∙◌, String, true, Option,
  none, some, List, [], ◌∷◌, ◌++◌, listed, leb, str_dec, Bool-cases, arith,
}
use sticky_proxy.Maps
use sticky_proxy.Maps.{Map}
use sticky_proxy.UserCache.{UserCache, invalidate_backend}
use sticky_proxy.UserCache.Laws.{
  seen, IsCache, get-invalidate_backend, get-invalidate_backend_other, invalidate_backend-IsCache,
  set-IsCache, get-IsCache, invalidate-IsCache,
}
use sticky_proxy.Notifier.{
  Notifier, arrives, timer_from, receive, invalidate_all, fire, Call, comes, receives, fires, sets,
  gets, forgets, step, run,
}

-- No key is answered with the backend, now or later.
abbrev pub Gone : UserCache → String → Type 0
Gone c b = (key : String) (at : ℕ) → seen c key at ≢ some b

invalidate_all-Gone :
    (bs : List String) (c : UserCache) (b : String)
    → IsCache c
    → IsCache (invalidate_all bs c)
      × (Gone c b → Gone (invalidate_all bs c) b)
      × (listed b bs ≡ true → Gone (invalidate_all bs c) b)
unfolding invalidate_all listed
invalidate_all-Gone [] c b d = (d, (λ g. g), (λ h. absurd (ground arith)))
invalidate_all-Gone (x ∷ bs) c b d =
    let ih = invalidate_all-Gone bs (invalidate_backend c x) b (invalidate_backend-IsCache c x d) in
    (
      ih.0,
      (λ g. ih.1 (λ key at h. g key at (get-invalidate_backend_other c x b key at d h))),
      (λ h. elim (str_dec x b) [
        | yes e ↦ ih.1 (λ key at.
            subst (λ y. seen (invalidate_backend c x) key at ≢ some y) e
              (get-invalidate_backend c x key at d).0)
        | no ne ↦ ih.2 (ground arith)
      ]),
    )

-- A received backend waits for a timer that is set at most a window after a moment.
abbrev pub Waits : ℕ → String → Notifier → Type 0
Waits limit b n = (t : ℕ) × (n.timer ≡ some t) × (t ≤ limit) × (Maps.has b n.pending ≡ true)

-- It waits, or no key is answered with it.
abbrev Settles : ℕ → String → Notifier → Type 0
Settles limit b n = (IsCache n.cache × Waits limit b n) ⊎ Gone n.cache b

receive-Waits :
    (n : Notifier) (now limit : ℕ) (b : String) (bs : List String)
    → IsCache n.cache × Waits limit b n
    → Settles limit b (receive n now bs)
unfolding receive
receive-Waits n now limit b [] h = inl h
receive-Waits n now limit b (x ∷ bs) (d, (t, e, le, p)) = inl (
  d,
  (t, ap (λ o. timer_from o now n.window) e, le, ground (arith, Maps.has-put x b tt n.pending)),
)

fire-Waits :
    (n : Notifier) (now limit : ℕ) (b : String) (o : Option ℕ)
    → n.timer ≡ o
    → IsCache n.cache
    → Waits limit b n
    → Settles limit b (fire n now o) × (limit ≤ now → Gone (fire n now o).cache b)
unfolding fire
fire-Waits n now limit b none e d w = absurd (ground (arith, w.1))
fire-Waits n now limit b (some t) e d w = elim (Bool-cases (leb t now)) [
  | inl due ↦
      let gone : Gone (invalidate_all (Maps.keys n.pending) n.cache) b =
        (invalidate_all-Gone (Maps.keys n.pending) n.cache b d).2
          (Maps.listed-keys b n.pending ∙ w.3) in
      rw due (inr gone, λ le. gone)
  | inr early ↦ rw early (inl (d, w), λ le. absurd (ground (arith, w.1, w.2)))
]

step-Waits :
    (n : Notifier) (c : Call) (limit : ℕ) (b : String)
    → IsCache n.cache
    → Waits limit b n
    → Settles limit b (step n c)
unfolding step arrives
step-Waits n (comes x) limit b d w = elim (Bool-cases (ltb (length n.channel) 64)) [
  | inl e ↦ rw e (inl (d, w))
  | inr e ↦ simp (e) (inl (d, w))
]
step-Waits n (receives now) limit b d w = receive-Waits n now limit b n.channel (d, w)
step-Waits n (fires now) limit b d w = (fire-Waits n now limit b n.timer refl d w).0
step-Waits n (sets key backend now) limit b d w = inl (set-IsCache n.cache key backend now d, w)
step-Waits n (gets key now) limit b d w = inl (get-IsCache n.cache key now d, w)
step-Waits n (forgets key) limit b d w = inl (invalidate-IsCache n.cache key d, w)

-- After a first part of the calls, no key is answered with the backend.
abbrev pub GoneWithin : Notifier → List Call → String → Type 0
GoneWithin n cs b = (first rest : List Call) × (first ++ rest ≡ cs) × Gone (run n first).cache b

run-GoneWithin :
    (n : Notifier) (cs : List Call) (limit later : ℕ) (b : String)
    → IsCache n.cache
    → Waits limit b n
    → limit ≤ later
    → GoneWithin n (cs ++ fires later ∷ []) b
unfolding run step
run-GoneWithin n [] limit later b d w le =
    (fires later ∷ [], [], refl, (fire-Waits n later limit b n.timer refl d w).1 le)
run-GoneWithin n (c ∷ cs) limit later b d w le = elim (step-Waits n c limit b d w) [
  | inr gone ↦ (c ∷ [], cs ++ fires later ∷ [], refl, gone)
  | inl (d', w') ↦
      let g = run-GoneWithin (step n c) cs limit later b d' w' le in
      (c ∷ g.0, g.1, ap (◌∷◌ c) g.2, g.3)
]

-- A timer that was set at `now` or before.
abbrev pub Due : ℕ → ℕ → Option ℕ → Type 0
Due window now none = Unit
Due window now (some t) = t ≤ now + window

first-Waits :
    (n : Notifier) (now : ℕ) (b : String) (rest : List String) (o : Option ℕ)
    → n.timer ≡ o
    → Due n.window now o
    → Waits (now + n.window) b (receive n now (b ∷ rest))
unfolding receive
first-Waits n now b rest none e d = (
  now + n.window,
  ap (λ o. timer_from o now n.window) e,
  omega arith,
  Maps.has-put_self b tt n.pending,
)
first-Waits n now b rest (some t) e d =
    (t, ap (λ o. timer_from o now n.window) e, d, Maps.has-put_self b tt n.pending)

-- An invalidation that is taken from the channel takes effect within the window. Whatever invalidations,
-- timer cases and calls of the cache by requests follow, up to a timer case that runs at a moment at least
-- a window later: at some point among them, at the latest after that timer case, no key is answered with
-- that backend, then or later without another assignment. The cache has no key twice, and a timer that is
-- set was set no later than the invalidation is taken.
pub fires-Gone :
    (n : Notifier) (now later : ℕ) (b : String) (rest : List String) (cs : List Call)
    → IsCache n.cache
    → Due n.window now n.timer
    → now + n.window ≤ later
    → GoneWithin (receive n now (b ∷ rest)) (cs ++ fires later ∷ []) b
unfolding receive
fires-Gone n now later b rest cs d due le =
    run-GoneWithin (receive n now (b ∷ rest)) cs (now + n.window) later b d
      (first-Waits n now b rest n.timer refl due) le
