-- ===== src/Config/Checks.antt =====
-- What holds of every configuration that `Load` of internal/config/config.go returns.
use sticky_proxy.Prelude.{
  ◌≡◌, refl, subst, String, Bool, true, false, not, ◌&&◌, List, [], ◌∷◌, All, is_empty,
  if◌then◌else◌, Bool-cases, inl, inr, arith,
}
use sticky_proxy.Config.{
  Config, Error, Result, ok, err, ◌>>=◌, ◌>>◌, same, refuse_if, seconds, Environment, parse_time,
}
use sticky_proxy.Config.Paths.{keep_paths, split_commas, trim_left, trim_right}
use sticky_proxy.Config.Load.{
  load_redis, load_backends, load_modes, load_discovery, choose_store, check_fields, load_limits,
  load_rest, load, is_mode, is_source, is_strategy, is_discovery, is_store,
}

-- The predicate holds of the value, if there is one.
data Ensures {A : Type 0} (P : A → Type 0) : Result A → Type 0 where
  returned : (a : A) → P a → Ensures P (ok a)
  stopped : (e : Error) → Ensures P (err e)

Ensures-eq : {A : Type 0} (P : A → Type 0) (r : Result A) → Ensures P r → (a : A) → r ≡ ok a → P a
Ensures-eq P r (returned b h) a e = subst P (ground arith) h
Ensures-eq P r (stopped x) a e = absurd (ground arith)

whatever :
    {A B : Type 0} {P : B → Type 0} (m : Result A) (f : A → Result B)
    → ((a : A) → Ensures P (f a))
    → Ensures P (m >>= f)
unfolding ◌>>=◌
whatever (ok a) f h = h a
whatever (err e) f h = stopped e

after :
    {A B : Type 0} {Q : A → Type 0} {P : B → Type 0} (m : Result A) (f : A → Result B)
    → Ensures Q m
    → ((a : A) → Q a → Ensures P (f a))
    → Ensures P (m >>= f)
unfolding ◌>>=◌
after m f (returned a q) h = h a q
after m f (stopped e) h = stopped e

passing :
    {B : Type 0} {P : B → Type 0} (b : Bool) (e : Error) (m : Result B)
    → (b ≡ false → Ensures P m)
    → Ensures P (refuse_if b e >> m)
unfolding ◌>>=◌ ◌>>◌ refuse_if
passing true e m h = stopped e
passing false e m h = h refl

abbrev pub Named : Config → Type 0
Named c = is_empty c.jwt_secret ≡ false

load_redis-Named : (e : Environment) (c : Config) → Ensures Named (load_redis e c)
unfolding load_redis
load_redis-Named e c = passing _ _ _ λ h. whatever _ _ λ ttl.
    whatever _ _
      λ pool. whatever _ _ λ idle. whatever _ _ λ threshold. whatever _ _ λ cooldown. returned _ h

load_backends-Named : (e : Environment) (c : Config) → Named c → Ensures Named (load_backends e c)
unfolding load_backends
load_backends-Named e c n = whatever _ _ λ a. whatever _ _ λ b.
    whatever _ _
      λ c. whatever _ _ λ d. whatever _ _ λ f. whatever _ _ λ g. whatever _ _ λ h. returned _ n

abbrev pub Moded : Config → Type 0
Moded c =
    Named c
    × (is_mode c.routing_mode ≡ true)
    × (is_source c.accounts_discovery ≡ true)
    × (is_strategy c.rebalance_strategy ≡ true)

abbrev pub Found : Config → Type 0
Found c = Moded c × (is_discovery c.backend_discovery ≡ true)

abbrev pub Stored : Config → Type 0
Stored c = Found c × (is_store c.assignment_store ≡ true)

-- What the cross-field validation has found false.
abbrev pub Fits : Config → Type 0
Fits c =
    ((not (is_empty c.accounts_discovery) && not (same c.routing_mode "assignment")) ≡ false)
    × ((same c.accounts_discovery "postgres" && is_empty c.postgres_dsn) ≡ false)
    × ((same c.backend_discovery "dns" && is_empty c.backend_discovery_host) ≡ false)
    × ((same c.backend_discovery "kubernetes" && is_empty c.backend_discovery_selector) ≡ false)
    × ((not (same c.rebalance_strategy "none") && not (same c.routing_mode "assignment")) ≡ false)
    × ((same c.assignment_store "memory" && not (same c.routing_mode "hash")) ≡ false)
    × ((same c.assignment_store "postgres" && not (same c.routing_mode "assignment")) ≡ false)
    × ((same c.assignment_store "postgres" && is_empty c.postgres_dsn) ≡ false)
    × ((same c.accounts_discovery "redis" && not (same c.assignment_store "redis")) ≡ false)

abbrev pub Checked : Config → Type 0
Checked c = Stored c × Fits c

abbrev pub Public : List String → Type 0
Public = All (λ x. is_empty x ≡ false)

not-false : (b : Bool) → not b ≡ false → b ≡ true
not-false true h = refl
not-false false h = cc

load_modes-Moded : (e : Environment) (c : Config) → Named c → Ensures Moded (load_modes e c)
unfolding load_modes
load_modes-Moded e c n = passing _ _ _ λ mode. passing _ _ _ λ source. whatever _ _ λ interval.
    passing _ _ _
      λ strategy. returned _ (n, not-false _ mode, not-false _ source, not-false _ strategy)

load_discovery-Found : (e : Environment) (c : Config) → Moded c → Ensures Found (load_discovery e c)
unfolding load_discovery
load_discovery-Found e c m =
    passing _ _ _ λ discovery. whatever _ _ λ interval. returned _ (m, not-false _ discovery)

choose_store-Stored : (e : Environment) (c : Config) → Found c → Ensures Stored (choose_store e c)
unfolding choose_store
choose_store-Stored e c f = passing _ _ _ λ store. returned _ (f, not-false _ store)

check_fields-Checked : (c : Config) → Stored c → Ensures Checked (check_fields c)
unfolding check_fields
check_fields-Checked c s = passing _ _ _ λ a. passing _ _ _ λ b. passing _ _ _ λ d.
    passing _ _ _ λ e. passing _ _ _ λ f. passing _ _ _ λ g.
      passing _ _ _
        λ h. passing _ _ _ λ i. passing _ _ _ λ j. returned c (s, (a, b, d, e, f, g, h, i, j))

load_limits-Checked : (e : Environment) (c : Config) → Checked c → Ensures Checked (load_limits e c)
unfolding load_limits
load_limits-Checked e c h = whatever _ _ λ hold. passing _ _ _ λ action. whatever _ _ λ threshold.
    whatever _ _
      λ window. whatever _ _ λ conns. whatever _ _ λ idle. whatever _ _ λ timeout. returned _ h

keep_paths-Public : (xs : List String) → Public (keep_paths xs)
unfolding keep_paths
keep_paths-Public [] = tt
keep_paths-Public (x ∷ xs) = elim (Bool-cases (is_empty (trim_right (trim_left x)))) [
  | inl e ↦ rw e (keep_paths-Public xs)
  | inr e ↦ rw e (e, keep_paths-Public xs)
]

if-Public : (b : Bool) (xs : List String) → Public xs → Public (if b then [] else xs)
if-Public true xs h = tt
if-Public false xs h = h

load_rest-Public :
    (e : Environment) (c : Config)
    → Checked c
    → Ensures (λ r. Checked r × Public r.public_paths) (load_rest e c)
unfolding load_rest
load_rest-Public e c h = passing _ _ _ λ format. returned _ (
  h,
  if-Public (is_empty (e.getenv "PUBLIC_PATHS")) _
      (keep_paths-Public (split_commas (e.getenv "PUBLIC_PATHS"))),
)

load-Ensures : (e : Environment) → Ensures (λ r. Checked r × Public r.public_paths) (load e)
unfolding load
load-Ensures e = after _ _ (load_redis-Named e _) λ a named.
    after _ _ (load_backends-Named e a named) λ b kept.
      after _ _ (load_modes-Moded e b kept) λ c moded.
        after _ _ (load_discovery-Found e c moded) λ d found.
          after _ _ (choose_store-Stored e d found) λ s stored.
            after _ _ (check_fields-Checked s stored) λ f checked.
              after _ _ (load_limits-Checked e f checked) λ l limited. load_rest-Public e l limited

pub load-Checked :
    (e : Environment) (c : Config) → load e ≡ ok c → Checked c × Public c.public_paths
load-Checked e c h = Ensures-eq _ (load e) (load-Ensures e) c h

itself : {A : Type 0} (m : Result A) → Ensures (λ a. m ≡ ok a) m
itself (ok a) = returned a refl
itself (err e) = stopped e

-- The detector's settings are those of the environment.
abbrev pub Watched : Environment → Config → Type 0
Watched e c =
    (c.poison_pill_action ≡ e.getenv "POISON_PILL_ACTION")
    × (parse_time e "POISON_PILL_WINDOW" (seconds 300) ≡ ok c.poison_pill_window)

load_limits-Watched : (e : Environment) (c : Config) → Ensures (Watched e) (load_limits e c)
unfolding load_limits
load_limits-Watched e c = whatever _ _ λ hold. passing _ _ _ λ action. whatever _ _ λ threshold.
    after _ _ (itself (parse_time e "POISON_PILL_WINDOW" (seconds 300))) λ window same_window.
      whatever _ _
        λ conns. whatever _ _ λ idle. whatever _ _ λ timeout. returned _ (refl, same_window)

load_rest-Watched :
    (e : Environment) (c : Config) → Watched e c → Ensures (Watched e) (load_rest e c)
unfolding load_rest
load_rest-Watched e c h = passing _ _ _ λ format. returned _ h

load-Ensures-Watched : (e : Environment) → Ensures (Watched e) (load e)
unfolding load
load-Ensures-Watched e = whatever _ _ λ a. whatever _ _ λ b. whatever _ _ λ c. whatever _ _ λ d.
    whatever _ _ λ s.
      whatever _ _
        λ f. after _ _ (load_limits-Watched e f) λ l limited. load_rest-Watched e l limited

pub load-Watched : (e : Environment) (c : Config) → load e ≡ ok c → Watched e c
load-Watched e c h = Ensures-eq _ (load e) (load-Ensures-Watched e) c h
