-- ===== src/Serve/Forced.antt =====
-- One request of a key whose cached backend drains: a forced reassignment (`ServeHTTP` of
-- internal/proxy/proxy.go).
use sticky_proxy.Prelude.{
  ℕ, ◌+◌, ◌≤◌, ◌<◌, ◌≡◌, refl, sym, ap, subst, ◌∙◌, String, Bool, true, false, some, List, [], ◌∷◌,
  ◌++◌, All, All-append, length, length-append, ◌&&◌, arith,
}
use sticky_proxy.Maps
use sticky_proxy.Maps.{Map}
use sticky_proxy.Hashing.{assign_via_hash}
use sticky_proxy.UserCache
use sticky_proxy.UserCache.{UserCache, Entry}
use sticky_proxy.Backends
use sticky_proxy.Poison
use sticky_proxy.Poison.{Detector, record_reassignment}
use sticky_proxy.Poison.Counts.{events_of, record-quarantines, record-notes}
use sticky_proxy.Serve.{
  Proxy, Clock, Answers, Decision, denied, fresh, quarantined, cache_assigned, assign, miss,
  is_draining, force, check_cached, route, send, forward, check_quarantine, refused,
}

get-cached :
    (c : UserCache) (key : String) (now : ℕ) (e : Entry)
    → Maps.get key c.entries ≡ some e
    → now ≤ e.exp
    → UserCache.get c key now ≡ (c, some e.backend)
unfolding UserCache.get
get-cached c key now e h le = ground arith

-- A live entry with a draining backend is a forced reassignment.
and-false : (b : Bool) → (b && false) ≡ false
and-false true = refl
and-false false = refl

route-forced :
    (p : Proxy) (key : String) (k : Clock) (a : Answers) (e : Entry)
    → Maps.get key p.cache.entries ≡ some e
    → k.looked_up ≤ e.exp
    → is_draining p.drain e.backend ≡ true
    → route p key k a
      ≡ force
          (record p { backends = (Backends.available p.backends e.backend k.checked).0 })
          p.poison
          key
          k
          a
unfolding route check_cached
route-forced p key k a e h le d =
    simp (get-cached p.cache key k.looked_up e h le, d, and-false) refl

force-notes :
    (p : Proxy) (d d' : Detector) (key b : String) (k : Clock) (a : Answers)
    → record_reassignment d key k.recorded ≡ (d', false)
    → p.by_table ≡ false
    → assign_via_hash a.actives key ≡ some b
    → force p (some d) key k a ≡ (
      record p {
        poison = some d';
        cache = UserCache.set (UserCache.invalidate p.cache key) key b k.stored;
      },
      fresh b,
    )
unfolding force miss assign cache_assigned
force-notes p d d' key b k a r h e = simp (r, h, e) refl

-- The state of a key whose backend drains: `d` has seen reassignments from `start` on, and the entry lasts
-- until `end`.
pub record Pending (start end ttl : ℕ) (key b : String) (p : Proxy) (d : Detector) (exp : ℕ)
    : Type 0 where
  pub watched : p.poison ≡ some d
  pub free : Maps.has key d.quarantine ≡ false
  pub since : All (λ e. start ≤ e) (events_of d key)
  pub cached : Maps.get key p.cache.entries ≡ some (record { backend = b; exp = exp })
  pub lasts : end ≤ exp
  pub kept_for : p.cache.ttl ≡ ttl
  pub draining : is_draining p.drain b ≡ true
  pub hashed : p.by_table ≡ false

All-mono :
    (start now window : ℕ) (es : List ℕ)
    → now ≤ start + window
    → All (λ e. start ≤ e) es
    → All (λ e. now ≤ e + window) es
All-mono start now window [] le h = tt
All-mono start now window (e ∷ es) le h = (omega arith, All-mono start now window es le h.1)

module _ (start end ttl : ℕ) (key b : String) where
  pub forward-Pending :
      (ws : Bool) (k : Clock) (a : Answers) (r : Proxy × Decision) (d : Detector) (exp : ℕ)
      → Pending start end ttl key b r.0 d exp
      → Pending start end ttl key b (forward ws k a r).0 d exp
  unfolding forward send
  forward-Pending ws k a (p, denied e) d exp h = h
  forward-Pending true k a (p, Decision.kept c) d exp h = h
  forward-Pending true k a (p, fresh c) d exp h = h
  forward-Pending false k a (p, Decision.kept c) d exp h = record {
    watched = h.watched;
    free = h.free;
    since = h.since;
    cached = h.cached;
    lasts = h.lasts;
    kept_for = h.kept_for;
    draining = h.draining;
    hashed = h.hashed;
  }
  forward-Pending false k a (p, fresh c) d exp h = record {
    watched = h.watched;
    free = h.free;
    since = h.since;
    cached = h.cached;
    lasts = h.lasts;
    kept_for = h.kept_for;
    draining = h.draining;
    hashed = h.hashed;
  }

  abbrev pub noted : Detector → ℕ → Detector
  noted d now = record d { events = Maps.put key (events_of d key ++ now ∷ []) d.events }

  pub route-Pending :
      (p : Proxy) (d : Detector) (exp : ℕ) (k : Clock) (a : Answers)
      → Pending start end ttl key b p d exp
      → k.looked_up ≤ end
      → start ≤ k.recorded
      → k.recorded ≤ start + d.window
      → end ≤ k.stored + ttl
      → assign_via_hash a.actives key ≡ some b
      → length (events_of d key) + 1 < d.threshold
      → Pending start end ttl key b (route p key k a).0 (noted d k.recorded) (k.stored + ttl)
  unfolding UserCache.set UserCache.invalidate
  route-Pending p d exp k a h live from within stays picked lt =
      let p' : Proxy = record p { backends = (Backends.available p.backends b k.checked).0 } in
      let routed =
        route-forced p key k a (record { backend = b; exp = exp }) h.cached (omega (arith, h.lasts))
          h.draining in
      let noted_now =
        record-notes d key k.recorded h.free
          (All-mono start k.recorded d.window (events_of d key) within h.since) lt in
      let whole =
        routed
        ∙ ap (λ o. force p' o key k a) h.watched
        ∙ force-notes p' d (noted d k.recorded) key b k a noted_now h.hashed picked in
      let seen = Maps.get-put_self key (events_of d key ++ k.recorded ∷ []) d.events in
      let entry : Entry = record { backend = b; exp = k.stored + p.cache.ttl } in
      subst (λ r. Pending start end ttl key b r.0 (noted d k.recorded) (k.stored + ttl)) (sym whole)
        (record {
          watched = refl;
          free = h.free;
          since =
              rw seen (
                All-append (λ e. start ≤ e) (events_of d key) (k.recorded ∷ []) h.since (from, tt));
          cached =
              Maps.get-put_self key entry (Maps.del key p.cache.entries)
              ∙ ap (λ t. some (record entry { exp = k.stored + t })) h.kept_for;
          lasts = stays;
          kept_for = h.kept_for;
          draining = h.draining;
          hashed = h.hashed;
        })

  force-blocks :
      (p : Proxy) (d : Detector) (k : Clock) (a : Answers)
      → (record_reassignment d key k.recorded).1 ≡ true
      → force p (some d) key k a
        ≡ (record p { poison = some (record_reassignment d key k.recorded).0 }, denied quarantined)
  unfolding force
  force-blocks p d k a r = simp (r) refl

  pub length-noted :
      (d : Detector) (now : ℕ) → length (events_of (noted d now) key) ≡ length (events_of d key) + 1
  length-noted d now =
      rw (Maps.get-put_self key (events_of d key ++ now ∷ []) d.events)
        (length-append (events_of d key) (now ∷ []))

  -- The last of them is denied, and the key is quarantined.
  pub route-denied :
      (p : Proxy) (d : Detector) (exp : ℕ) (k : Clock) (a : Answers)
      → Pending start end ttl key b p d exp
      → k.looked_up ≤ end
      → k.recorded ≤ start + d.window
      → d.threshold ≤ length (events_of d key) + 1
      → ((route p key k a).1 ≡ denied quarantined)
        × (check_quarantine (route p key k a).0.poison key ≡ refused quarantined)
  unfolding check_quarantine Poison.is_quarantined
  route-denied p d exp k a h live within le =
      let p' : Proxy = record p { backends = (Backends.available p.backends b k.checked).0 } in
      let routed =
        route-forced p key k a (record { backend = b; exp = exp }) h.cached (omega (arith, h.lasts))
          h.draining in
      let q =
        record-quarantines d key k.recorded h.free
          (All-mono start k.recorded d.window (events_of d key) within h.since) le in
      let whole = routed ∙ ap (λ o. force p' o key k a) h.watched ∙ force-blocks p' d k a q.0 in
      rw whole (refl, rw q.1 refl)
