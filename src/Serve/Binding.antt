-- ===== src/Serve/Binding.antt =====
-- What one request changes of the binding of a key: its cache entry, and the failures and the drain of
-- its backend (`ServeHTTP` of internal/proxy/proxy.go).
use sticky_proxy.Prelude.{
  ℕ, ◌+◌, ◌≤◌, ◌≡◌, ◌≢◌, refl, sym, ap, subst, String, Bool, true, false, Option, none, some,
  str_dec, not, ◌&&◌, ◌∙◌, Bool-cases, inl, inr, arith,
}
use sticky_proxy.Maps
use sticky_proxy.Maps.{Map}
use sticky_proxy.UserCache
use sticky_proxy.UserCache.{UserCache, Entry}
use sticky_proxy.Backends
use sticky_proxy.Backends.{Manager}
use sticky_proxy.Poison
use sticky_proxy.Poison.{Detector}
use sticky_proxy.Backends.Exchange.{
  available-healthy, available-fresh, proxy_request-healthy, proxy_request-answered,
}
use sticky_proxy.Serve.{
  Proxy, Clock, Answers, Decision, denied, kept, fresh, Outcome, ends, bridged, proxied, assign,
  cache_assigned, miss, is_draining, forget, force, check_cached, route, send, forward,
}

-- The backend that has answered a request, or to which its WebSocket is bridged.
abbrev pub goes_to : Outcome → Option String
goes_to (ends e) = none
goes_to (bridged b) = some b
goes_to (proxied b Backends.served) = some b
goes_to (proxied b Backends.unavailable) = none
goes_to (proxied b Backends.invalid) = none
goes_to (proxied b Backends.backend_error) = none

-- The key is cached with the backend, which has no failures and does not drain.
pub record IsBound (p : Proxy) (key b : String) (exp : ℕ) : Type 0 where
  pub cached : Maps.get key p.cache.entries ≡ some (record { backend = b; exp = exp })
  pub healthy : Maps.get b p.backends.failures ≡ none
  pub staying : is_draining p.drain b ≡ false

get-keeps :
    (c : UserCache) (k key : String) (now : ℕ) (e : Entry)
    → Maps.get key c.entries ≡ some e
    → now ≤ e.exp
    → Maps.get key (UserCache.get c k now).0.entries ≡ some e
unfolding UserCache.get
get-keeps c k key now e h le = elim (str_dec k key) [
  | yes q ↦ subst (λ x. Maps.get key (UserCache.get c x now).0.entries ≡ some e) (sym q) (same)
  | no q ↦ ground (arith, Maps.get-del k key c.entries)
]
  where
    same : Maps.get key (UserCache.get c key now).0.entries ≡ some e
    same = ground arith

get-found :
    (c : UserCache) (key : String) (now : ℕ) (e : Entry)
    → Maps.get key c.entries ≡ some e
    → now ≤ e.exp
    → (UserCache.get c key now).1 ≡ some e.backend
unfolding UserCache.get
get-found c key now e h le = ground arith

module _ (key b : String) (exp : ℕ) where
  assign-IsBound :
      (p : Proxy) (other : String) (k : Clock) (a : Answers)
      → IsBound p key b exp
      → IsBound (assign p other k a).0 key b exp
  unfolding assign
  assign-IsBound p other k a h = elim (Bool-cases p.by_table) [
    | inl e ↦ rw e (record { cached = h.cached; healthy = h.healthy; staying = h.staying })
    | inr e ↦ simp e h
  ]

  pub set-IsBound :
      (p : Proxy) (other c : String) (now : ℕ)
      → other ≢ key
      → IsBound p key b exp
      → IsBound (record p { cache = UserCache.set p.cache other c now }) key b exp
  unfolding UserCache.set
  set-IsBound p other c now ne h = record {
    cached = ground (
      arith,
      Maps.get-put_ne other key (record { backend = c; exp = now + p.cache.ttl }) p.cache.entries,
      h.cached,
    );
    healthy = h.healthy;
    staying = h.staying;
  }

  cache_assigned-IsBound :
      (other : String) (now : ℕ) (r : Proxy × Option String)
      → other ≢ key
      → IsBound r.0 key b exp
      → IsBound (cache_assigned other now r).0 key b exp
  unfolding cache_assigned
  cache_assigned-IsBound other now (p, none) ne h = h
  cache_assigned-IsBound other now (p, some c) ne h = set-IsBound p other c now ne h

  miss-IsBound :
      (p : Proxy) (other : String) (k : Clock) (a : Answers)
      → other ≢ key
      → IsBound p key b exp
      → IsBound (miss p other k a).0 key b exp
  unfolding miss
  miss-IsBound p other k a ne h =
      cache_assigned-IsBound other k.stored (assign p other k a) ne (assign-IsBound p other k a h)

  forget-IsBound :
      (p : Proxy) (other : String)
      → other ≢ key
      → IsBound p key b exp
      → IsBound (forget p other) key b exp
  unfolding UserCache.invalidate
  forget-IsBound p other ne h = record {
    cached = ground (arith, Maps.get-del_ne other key p.cache.entries, h.cached);
    healthy = h.healthy;
    staying = h.staying;
  }

  force-IsBound :
      (p : Proxy) (o : Option Detector) (other : String) (k : Clock) (a : Answers)
      → other ≢ key
      → IsBound p key b exp
      → IsBound (force p o other k a).0 key b exp
  unfolding force
  force-IsBound p none other k a ne h =
      miss-IsBound (forget p other) other k a ne (forget-IsBound p other ne h)
  force-IsBound p (some d) other k a ne h =
      let r = Poison.record_reassignment d other k.recorded in
      let counted : Proxy = record p { poison = some r.0 } in
      let h' : IsBound counted key b exp = record {
        cached = h.cached;
        healthy = h.healthy;
        staying = h.staying;
      } in
      elim (Bool-cases r.1) [
        | inl e ↦ rw e h'
        | inr e ↦
            rw e (
              miss-IsBound (forget counted other) other k a ne (forget-IsBound counted other ne h'))
      ]

  check_cached-IsBound :
      (p : Proxy) (other : String) (k : Clock) (a : Answers) (o : Option String)
      → other ≢ key
      → IsBound p key b exp
      → IsBound (check_cached p other k a o).0 key b exp
  unfolding check_cached
  check_cached-IsBound p other k a none ne h = miss-IsBound p other k a ne h
  check_cached-IsBound p other k a (some c) ne h =
      let r = Backends.available p.backends c k.checked in
      let p' : Proxy = record p { backends = r.0 } in
      let h' : IsBound p' key b exp = record {
        cached = h.cached;
        healthy = available-healthy p.backends b c k.checked h.healthy;
        staying = h.staying;
      } in
      elim (Bool-cases (r.1 && not (is_draining p.drain c))) [
        | inl e ↦ rw e h'
        | inr e ↦ rw e (force-IsBound p' p.poison other k a ne h')
      ]

  -- A request of another key.
  pub route-IsBound :
      (p : Proxy) (other : String) (k : Clock) (a : Answers)
      → other ≢ key
      → k.looked_up ≤ exp
      → IsBound p key b exp
      → IsBound (route p other k a).0 key b exp
  unfolding route
  route-IsBound p other k a ne le h =
      let r = UserCache.get p.cache other k.looked_up in
      check_cached-IsBound (record p { cache = r.0 }) other k a r.1 ne
        (record {
          cached =
              get-keeps p.cache other key k.looked_up (record { backend = b; exp = exp }) h.cached
                le;
          healthy = h.healthy;
          staying = h.staying;
        })

  -- A request of the key itself.
  pub route-kept :
      (p : Proxy) (k : Clock) (a : Answers)
      → k.looked_up ≤ exp
      → IsBound p key b exp
      → IsBound (route p key k a).0 key b exp × ((route p key k a).1 ≡ kept b)
  unfolding route check_cached
  route-kept p k a le h =
      let e : Entry = record { backend = b; exp = exp } in
      rw
        (
          get-found p.cache key k.looked_up e h.cached le,
          available-fresh p.backends b k.checked h.healthy,
          h.staying,
        )
        (
          record {
            cached = get-keeps p.cache key key k.looked_up e h.cached le;
            healthy = available-healthy p.backends b b k.checked h.healthy;
            staying = h.staying;
          },
          refl,
        )

  pub send-IsBound :
      (ws : Bool) (p : Proxy) (c : String) (k : Clock) (a : Answers)
      → a.reached b ≡ true
      → IsBound p key b exp
      → IsBound (send ws p c k a).0 key b exp
  unfolding send
  send-IsBound true p c k a ok h = h
  send-IsBound false p c k a ok h = record {
    cached = h.cached;
    healthy =
        proxy_request-healthy p.backends b c k.sent k.ended (a.parses c) (a.reached c)
          (λ e. sym (ap a.reached e) ∙ ok) h.healthy;
    staying = h.staying;
  }

  send-goes_to :
      (ws : Bool) (p : Proxy) (k : Clock) (a : Answers)
      → a.parses b ≡ true
      → a.reached b ≡ true
      → IsBound p key b exp
      → goes_to (send ws p b k a).1 ≡ some b
  unfolding send
  send-goes_to true p k a good ok h = refl
  send-goes_to false p k a good ok h =
      rw (good, ok, proxy_request-answered p.backends b k.sent k.ended h.healthy) refl

  pub forward-IsBound :
      (ws : Bool) (k : Clock) (a : Answers) (r : Proxy × Decision)
      → a.reached b ≡ true
      → IsBound r.0 key b exp
      → IsBound (forward ws k a r).0 key b exp
  unfolding forward
  forward-IsBound ws k a (p, denied e) ok h = h
  forward-IsBound ws k a (p, kept c) ok h = send-IsBound ws p c k a ok h
  forward-IsBound ws k a (p, fresh c) ok h = send-IsBound ws p c k a ok h

  pub forward-kept :
      (ws : Bool) (k : Clock) (a : Answers) (r : Proxy × Decision)
      → a.parses b ≡ true
      → a.reached b ≡ true
      → IsBound r.0 key b exp
      → r.1 ≡ kept b
      → goes_to (forward ws k a r).1 ≡ some b
  unfolding forward
  forward-kept ws k a (p, denied e) good ok h q = absurd (ground arith)
  forward-kept ws k a (p, kept c) good ok h q =
      let same : c ≡ b = ground arith in simp (same) (send-goes_to ws p k a good ok h)
  forward-kept ws k a (p, fresh c) good ok h q = absurd (ground arith)
