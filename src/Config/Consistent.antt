-- ===== src/Config/Consistent.antt =====
-- The configuration as the program may rely on it (`Load` of internal/config/config.go).
use text.Mathlib.TextEquality.{eq_iff}
use sticky_proxy.Prelude.{
  ◌≡◌, ◌≢◌, ◌⊎◌, inl, inr, refl, String, Bool, true, false, not, ◌&&◌, ◌||◌, is_empty, not_empty,
}
use sticky_proxy.Config.{Config, ok, same, Environment}
use sticky_proxy.Config.Load.{load}
use sticky_proxy.Config.Checks.{Public, load-Checked}

-- Both a setting and what it needs of the others.
pub record IsConsistent (c : Config) : Type 0 where
  pub secret : c.jwt_secret ≢ ""
  pub mode : (c.routing_mode ≡ "hash") ⊎ (c.routing_mode ≡ "assignment")
  pub store :
      (c.assignment_store ≡ "memory")
      ⊎ ((c.assignment_store ≡ "redis") ⊎ (c.assignment_store ≡ "postgres"))
  pub source :
      (c.accounts_discovery ≡ "")
      ⊎ ((c.accounts_discovery ≡ "redis")
          ⊎ ((c.accounts_discovery ≡ "http") ⊎ (c.accounts_discovery ≡ "postgres")))
  pub strategy :
      (c.rebalance_strategy ≡ "none")
      ⊎ ((c.rebalance_strategy ≡ "least-loaded") ⊎ (c.rebalance_strategy ≡ "consistent-hash"))
  pub discovery :
      (c.backend_discovery ≡ "")
      ⊎ ((c.backend_discovery ≡ "dns") ⊎ (c.backend_discovery ≡ "kubernetes"))
  pub accounts_need_table : c.accounts_discovery ≢ "" → c.routing_mode ≡ "assignment"
  pub accounts_need_dsn : c.accounts_discovery ≡ "postgres" → c.postgres_dsn ≢ ""
  pub accounts_need_redis : c.accounts_discovery ≡ "redis" → c.assignment_store ≡ "redis"
  pub dns_needs_host : c.backend_discovery ≡ "dns" → c.backend_discovery_host ≢ ""
  pub kubernetes_needs_selector :
      c.backend_discovery ≡ "kubernetes" → c.backend_discovery_selector ≢ ""
  pub rebalance_needs_table : c.rebalance_strategy ≢ "none" → c.routing_mode ≡ "assignment"
  pub memory_needs_hash : c.assignment_store ≡ "memory" → c.routing_mode ≡ "hash"
  pub postgres_needs_table : c.assignment_store ≡ "postgres" → c.routing_mode ≡ "assignment"
  pub postgres_needs_dsn : c.assignment_store ≡ "postgres" → c.postgres_dsn ≢ ""
  pub public_named : Public c.public_paths

pub same-eq : (s t : String) → same s t ≡ true → s ≡ t
same-eq s t = (eq_iff s t).0

pub same_refl : (s t : String) → s ≡ t → same s t ≡ true
same_refl s t = (eq_iff s t).1

empty-eq : (s : String) → is_empty s ≡ true → s ≡ ""
unfolding is_empty
empty-eq String.[] h = refl
empty-eq (String.◌∷◌ c s) h = cc

-- A refused pair: when the first holds, the second does not.
and-needs : (a b : Bool) → (a && b) ≡ false → a ≡ true → b ≡ false
and-needs true b h e = h
and-needs false b h e = cc

and-not_needs : (a b : Bool) → (a && not b) ≡ false → a ≡ true → b ≡ true
and-not_needs true true h e = refl
and-not_needs true false h e = cc
and-not_needs false b h e = cc

or-cases : (a b : Bool) → (a || b) ≡ true → (a ≡ true) ⊎ (b ≡ true)
or-cases true b h = inl refl
or-cases false b h = inr h

or_map : {A B C D : Type 0} → (A → C) → (B → D) → A ⊎ B → C ⊎ D
or_map f g (inl a) = inl (f a)
or_map f g (inr b) = inr (g b)

one_of :
    (s x : String) (b : Bool) {B : Type 0} → (same s x || b) ≡ true → (b ≡ true → B) → (s ≡ x) ⊎ B
one_of s x b h f = or_map (same-eq s x) f (or-cases (same s x) b h)

-- A text that must not be "" has to be given.
needs_text : (s x t : String) → (same s x && is_empty t) ≡ false → s ≡ x → t ≢ ""
needs_text s x t h e = not_empty t (and-needs (same s x) (is_empty t) h (same_refl s x e))

needs_value : (s x t y : String) → (same s x && not (same t y)) ≡ false → s ≡ x → t ≡ y
needs_value s x t y h e = same-eq t y (and-not_needs (same s x) (same t y) h (same_refl s x e))

ne-not : (b : Bool) → (b ≡ true → ⊥) → not b ≡ true
ne-not true h = absurd (h refl)
ne-not false h = refl

-- Every configuration that `Load` returns is consistent: a secret is set, each mode is one of its values,
-- what a mode needs of the other settings is there, and no public path is the empty prefix.
pub load-IsConsistent : (e : Environment) (c : Config) → load e ≡ ok c → IsConsistent c
load-IsConsistent e c h =
    let ((stored, fits), public) = load-Checked e c h in
    let ((moded, discovery), store) = stored in
    let (named, mode, source, strategy) = moded in
    record {
      secret = not_empty c.jwt_secret named;
      mode = one_of c.routing_mode "hash" _ mode (same-eq c.routing_mode "assignment");
      store =
          one_of c.assignment_store "memory" _ store
            λ t. one_of c.assignment_store "redis" _ t (same-eq c.assignment_store "postgres");
      source =
          or_map (empty-eq c.accounts_discovery)
            (λ t.
              one_of c.accounts_discovery "redis" _ t λ u.
                one_of c.accounts_discovery "http" _ u (same-eq c.accounts_discovery "postgres"))
            (or-cases _ _ source);
      strategy = one_of c.rebalance_strategy "none" _ strategy λ t.
          one_of c.rebalance_strategy "least-loaded" _ t
            (same-eq c.rebalance_strategy "consistent-hash");
      discovery =
          or_map (empty-eq c.backend_discovery)
            (λ t. one_of c.backend_discovery "dns" _ t (same-eq c.backend_discovery "kubernetes"))
            (or-cases _ _ discovery);
      accounts_need_table = λ ne. same-eq c.routing_mode "assignment" (
          and-not_needs (not (is_empty c.accounts_discovery)) _ fits.0
            (ne-not (is_empty c.accounts_discovery) (λ x. ne (empty-eq c.accounts_discovery x))));
      accounts_need_dsn = needs_text c.accounts_discovery "postgres" c.postgres_dsn fits.1;
      accounts_need_redis =
          needs_value c.accounts_discovery "redis" c.assignment_store "redis" fits.8;
      dns_needs_host = needs_text c.backend_discovery "dns" c.backend_discovery_host fits.2;
      kubernetes_needs_selector =
          needs_text c.backend_discovery "kubernetes" c.backend_discovery_selector fits.3;
      rebalance_needs_table = λ ne. same-eq c.routing_mode "assignment" (
          and-not_needs (not (same c.rebalance_strategy "none")) _ fits.4 (
            ne-not (same c.rebalance_strategy "none")
              (λ x. ne (same-eq c.rebalance_strategy "none" x))));
      memory_needs_hash = needs_value c.assignment_store "memory" c.routing_mode "hash" fits.5;
      postgres_needs_table =
          needs_value c.assignment_store "postgres" c.routing_mode "assignment" fits.6;
      postgres_needs_dsn = needs_text c.assignment_store "postgres" c.postgres_dsn fits.7;
      public_named = public;
    }
