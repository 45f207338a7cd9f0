-- ===== src/Serve/Draining.antt =====
-- Requests of a key whose cached backend drains, in hash mode with the poison pill detector
-- (`ServeHTTP` of internal/proxy/proxy.go).
use sticky_proxy.Prelude.{
  ℕ, ◌+◌, ◌≤◌, ◌<◌, ◌≡◌, refl, ap, ◌∙◌, String, Bool, true, false, none, some, List, [], ◌∷◌, All,
  length, arith,
}
use sticky_proxy.Maps
use sticky_proxy.Maps.{Map}
use sticky_proxy.Hashing.{assign_via_hash}
use sticky_proxy.Poison.{Detector}
use sticky_proxy.Poison.Counts.{events_of}
use sticky_proxy.Serve.{
  Proxy, Clock, Answers, Decision, denied, fresh, quarantined, is_draining, route, send, forward,
  serve, check_quarantine, refused,
}
use sticky_proxy.Serve.Sticky.{Visit, visit}
use sticky_proxy.Serve.Forced.{
  Pending, noted, forward-Pending, route-Pending, length-noted, route-denied,
}

-- A request of the key between `start` and `end`, less than a window apart, to which the store answers
-- backends from which the hash picks `b`.
pub record Falls (start end ttl window : ℕ) (key b : String) (v : Visit) : Type 0 where
  pub own : v.key ≡ key
  pub live : v.clock.looked_up ≤ end
  pub from : start ≤ v.clock.recorded
  pub within : v.clock.recorded ≤ start + window
  pub stays : end ≤ v.clock.stored + ttl
  pub picked : assign_via_hash v.answers.actives key ≡ some b

forward-poison :
    (ws : Bool) (k : Clock) (a : Answers) (r : Proxy × Decision)
    → (forward ws k a r).0.poison ≡ r.0.poison
unfolding forward send
forward-poison ws k a (p, denied e) = refl
forward-poison true k a (p, Decision.kept c) = refl
forward-poison true k a (p, fresh c) = refl
forward-poison false k a (p, Decision.kept c) = refl
forward-poison false k a (p, fresh c) = refl

-- The requests one after the other.
unfoldable pub visit_all : Proxy → List Visit → Proxy
unfolding visit
visit_all p [] = p
visit_all p (v ∷ vs) = visit_all (visit p v).0 vs

module _ (start end ttl window : ℕ) (key b : String) where
  visit-Pending :
      (p : Proxy) (d : Detector) (exp : ℕ) (v : Visit)
      → d.window ≡ window
      → Pending start end ttl key b p d exp
      → Falls start end ttl window key b v
      → length (events_of d key) + 1 < d.threshold
      → Pending start end ttl key b
          (visit p v).0
          (noted start end ttl key b d v.clock.recorded)
          (v.clock.stored + ttl)
  unfolding visit serve
  visit-Pending p d exp v w h f lt =
      let at = λ (k : String).
        forward-Pending start end ttl key b v.websocket v.clock v.answers
          (route p k v.clock v.answers) (noted start end ttl key b d v.clock.recorded)
          (v.clock.stored + ttl) in
      rw f.own (
        at key (
          route-Pending start end ttl key b p d exp v.clock v.answers h f.live f.from
            (omega (arith, f.within, w)) f.stays f.picked lt))

  visit-denied :
      (p : Proxy) (d : Detector) (exp : ℕ) (v : Visit)
      → d.window ≡ window
      → Pending start end ttl key b p d exp
      → Falls start end ttl window key b v
      → d.threshold ≤ length (events_of d key) + 1
      → check_quarantine (visit p v).0.poison key ≡ refused quarantined
  unfolding visit serve
  visit-denied p d exp v w h f le =
      ap (λ o. check_quarantine o key)
        (forward-poison v.websocket v.clock v.answers (route p v.key v.clock v.answers))
      ∙ (rw f.own
          (route-denied start end ttl key b p d exp v.clock v.answers h f.live
            (omega (arith, f.within, w)) le).1)

  visit_all-Pending :
      (p : Proxy) (d : Detector) (exp : ℕ) (vs : List Visit)
      → d.window ≡ window
      → Pending start end ttl key b p d exp
      → All (Falls start end ttl window key b) vs
      → 0 < length vs
      → length (events_of d key) + length vs ≡ d.threshold
      → check_quarantine (visit_all p vs).poison key ≡ refused quarantined
  unfolding visit_all
  visit_all-Pending p d exp [] w h fs pos e = absurd (omega arith)
  visit_all-Pending p d exp (v ∷ []) w h fs pos e = visit-denied p d exp v w h fs.0 (omega arith)
  visit_all-Pending p d exp (v ∷ (u ∷ vs)) w h fs pos e =
      visit_all-Pending (visit p v).0 (noted start end ttl key b d v.clock.recorded)
        (v.clock.stored + ttl) (u ∷ vs) w (visit-Pending p d exp v w h fs.0 (omega arith)) fs.1
        (omega arith) (omega (arith, length-noted start end ttl key b d v.clock.recorded))

-- In hash mode, while the backend of a key drains and is still picked for it, as many requests of the
-- key as the threshold, within the window of the detector, quarantine the key: the next one is refused.
pub drain-quarantines :
    (p : Proxy) (d : Detector) (key b : String) (start end exp : ℕ) (vs : List Visit)
    → p.by_table ≡ false
    → p.poison ≡ some d
    → Maps.has key d.quarantine ≡ false
    → Maps.get key d.events ≡ none
    → is_draining p.drain b ≡ true
    → Maps.get key p.cache.entries ≡ some (record { backend = b; exp = exp })
    → end ≤ exp
    → All (Falls start end p.cache.ttl d.window key b) vs
    → length vs ≡ d.threshold
    → 0 < d.threshold
    → check_quarantine (visit_all p vs).poison key ≡ refused quarantined
drain-quarantines p d key b start end exp vs hashed watched free fresh_key draining cached lasts fs
      e pos =
    visit_all-Pending start end p.cache.ttl d.window key b p d exp vs refl
      (record {
        watched = watched;
        free = free;
        since = rw fresh_key tt;
        cached = cached;
        lasts = lasts;
        kept_for = refl;
        draining = draining;
        hashed = hashed;
      })
      fs (omega arith) (rw fresh_key (omega (arith, e)))
