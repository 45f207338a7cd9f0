-- ===== src/Serve/Logins.antt =====
-- What a public request changes of the binding of a key that it does not name (`servePublic` and
-- `bindStickyKey` of internal/proxy/proxy.go).
use sticky_proxy.Prelude.{
  ℕ, ◌≡◌, ◌≢◌, String, true, false, [], ◌∷◌, Bool-cases, inl, inr, arith, is_empty,
}
use sticky_proxy.Prelude.Sort.{sort}
use sticky_proxy.Hashing.{Listing, failed, listing, pick, hash_user}
use sticky_proxy.Backends
use sticky_proxy.Serve.{
  Proxy, Clock, Answers, Outcome, ends, bridged, proxied, send, bind_answer, bind_sticky_key,
  sticky_of, serve_public,
}
use sticky_proxy.Serve.Binding.{IsBound, set-IsBound, send-IsBound}

module _ (key b : String) (exp : ℕ) where
  -- The end of a login of another key, or of one that names no key.
  bind_answer-keeps :
      (c sticky : String) (now : ℕ) (r : Proxy × Outcome)
      → (is_empty sticky ≡ false → sticky ≢ key)
      → IsBound r.0 key b exp
      → IsBound (bind_answer c sticky now r).0.0 key b exp
  unfolding bind_answer bind_sticky_key
  bind_answer-keeps c sticky now (p, o) ne h = elim (Bool-cases (is_empty sticky)) [
    | inl e ↦ rw e h
    | inr e ↦ rw e (set-IsBound key b exp p sticky c now (ne e) h)
  ]

  sticky_of-other :
      (o : Outcome) (sticky : String)
      → sticky ≢ key
      → is_empty (sticky_of o sticky) ≡ false
      → sticky_of o sticky ≢ key
  unfolding sticky_of is_empty
  sticky_of-other (ends e) sticky ne h = absurd (ground arith)
  sticky_of-other (bridged c) sticky ne h = absurd (ground arith)
  sticky_of-other (proxied c Backends.served) sticky ne h = ne
  sticky_of-other (proxied c Backends.unavailable) sticky ne h = absurd (ground arith)
  sticky_of-other (proxied c Backends.invalid) sticky ne h = absurd (ground arith)
  sticky_of-other (proxied c Backends.backend_error) sticky ne h = absurd (ground arith)

  -- A login with another key.
  pub serve_public-IsBound :
      (p : Proxy) (remote sticky : String) (k : Clock) (a : Answers) (actives : Listing)
      → sticky ≢ key
      → a.reached b ≡ true
      → IsBound p key b exp
      → IsBound (serve_public p remote sticky k a actives).0.0 key b exp
  unfolding serve_public
  serve_public-IsBound p remote sticky k a failed ne ok h = h
  serve_public-IsBound p remote sticky k a (listing []) ne ok h = h
  serve_public-IsBound p remote sticky k a (listing (c ∷ cs)) ne ok h =
      let backend = pick (hash_user remote) (sort (c ∷ cs)) in
      let done = send false p backend k a in
      bind_answer-keeps backend (sticky_of done.1 sticky) k.stored done
        (sticky_of-other done.1 sticky ne) (send-IsBound key b exp false p backend k a ok h)
