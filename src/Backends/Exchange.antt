-- ===== src/Backends/Exchange.antt =====
-- A backend without failures, across checks of availability and requests (internal/proxy/backends.go).
use sticky_proxy.Prelude.{
  ℕ, ◌≡◌, refl, sym, ◌∙◌, String, Bool, true, false, none, if◌then◌else◌, Bool-cases, inl, inr,
  arith,
}
use sticky_proxy.Maps
use sticky_proxy.Backends.{
  Manager, record_failure, available, get_or_create_proxy, serve, proxy_request, served,
}

pub available-healthy :
    (m : Manager) (b other : String) (now : ℕ)
    → Maps.get b m.failures ≡ none
    → Maps.get b (available m other now).0.failures ≡ none
unfolding available
available-healthy m b other now h = ground (arith, Maps.get-del other b m.failures)

pub available-fresh :
    (m : Manager) (b : String) (now : ℕ)
    → Maps.get b m.failures ≡ none
    → (available m b now).1 ≡ true
unfolding available
available-fresh m b now h = ground arith

-- A failed exchange counts against its own backend only.
serve-healthy :
    (m : Manager) (b c : String) (later : ℕ) (reached : Bool)
    → (b ≡ c → reached ≡ true)
    → Maps.get b m.failures ≡ none
    → Maps.get b (serve m c later reached).0.failures ≡ none
unfolding serve record_failure
serve-healthy m b c later true ok h = h
serve-healthy m b c later false ok h =
    Maps.get-put_ne c b _ m.failures (λ e. absurd (ground (arith, ok (sym e)))) ∙ h

found-healthy :
    (m : Manager) (b c : String) (later : ℕ) (parses reached : Bool)
    → (b ≡ c → reached ≡ true)
    → Maps.get b m.failures ≡ none
    → let found = get_or_create_proxy m c parses in
      Maps.get b (serve found.0 c later reached).0.failures ≡ none
      × (Maps.get b found.0.failures ≡ none)
unfolding get_or_create_proxy
found-healthy m b c later parses reached ok h = elim (Bool-cases (Maps.has c m.proxies)) [
  | inl e ↦ rw e (serve-healthy m b c later reached ok h, h)
  | inr e ↦ rw e (split parses)
]
  where
    split :
        (q : Bool)
        → let found : Manager × Bool =
            if q then (record m { proxies = Maps.put c tt m.proxies }, true) else (m, false) in
          Maps.get b (serve found.0 c later reached).0.failures ≡ none
          × (Maps.get b found.0.failures ≡ none)
    split true =
        (serve-healthy (record m { proxies = Maps.put c tt m.proxies }) b c later reached ok h, h)
    split false = (serve-healthy m b c later reached ok h, h)

pub proxy_request-healthy :
    (m : Manager) (b c : String) (now later : ℕ) (parses reached : Bool)
    → (b ≡ c → reached ≡ true)
    → Maps.get b m.failures ≡ none
    → Maps.get b (proxy_request m c now later parses reached).0.failures ≡ none
unfolding proxy_request
proxy_request-healthy m b c now later parses reached ok h =
    let r = available m c now in
    let h₁ = available-healthy m b c now h in
    let f = found-healthy r.0 b c later parses reached ok h₁ in
    elim (Bool-cases r.1) [
      | inr e ↦ rw e h₁
      | inl e ↦ rw e (elim (Bool-cases (get_or_create_proxy r.0 c parses).1) [
        | inl q ↦ rw q f.0
        | inr q ↦ rw q f.1
      ])
    ]

available-clears :
    (m : Manager) (b : String) (now : ℕ)
    → (available m b now).1 ≡ true
    → Maps.get b (available m b now).0.failures ≡ none
unfolding available
available-clears m b now h = ground (arith, Maps.get-del_self b m.failures)

get_or_create_proxy-failures :
    (m : Manager) (c : String) (parses : Bool)
    → (get_or_create_proxy m c parses).0.failures ≡ m.failures
unfolding get_or_create_proxy
get_or_create_proxy-failures m c parses = ground arith

serve-served :
    (m : Manager) (b : String) (later : ℕ) (reached : Bool)
    → (serve m b later reached).1 ≡ served
    → (serve m b later reached).0 ≡ m
unfolding serve
serve-served m b later true h = refl
serve-served m b later false h = absurd (ground arith)

-- A served request leaves no failures of its backend.
pub proxy_request-served :
    (m : Manager) (b : String) (now later : ℕ) (parses reached : Bool)
    → (proxy_request m b now later parses reached).1 ≡ served
    → Maps.get b (proxy_request m b now later parses reached).0.failures ≡ none
unfolding proxy_request
proxy_request-served m b now later parses reached h =
    let r = available m b now in
    let f = get_or_create_proxy r.0 b parses in
    elim (Bool-cases r.1) [
      | inr e ↦ absurd (ground arith)
      | inl e ↦ elim (Bool-cases f.1) [
        | inr q ↦ absurd (ground arith)
        | inl q ↦
            let same = serve-served f.0 b later reached (ground arith) in
            rw (e, q, same, get_or_create_proxy-failures r.0 b parses) (available-clears m b now e)
      ]
    ]

-- A request is answered if the backend has no failures, its address parses and the exchange succeeds.
pub proxy_request-answered :
    (m : Manager) (b : String) (now later : ℕ)
    → Maps.get b m.failures ≡ none
    → (proxy_request m b now later true true).1 ≡ served
unfolding proxy_request get_or_create_proxy serve
proxy_request-answered m b now later h = ground (arith, available-fresh m b now h)
