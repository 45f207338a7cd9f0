-- ===== src/Startup/Whole.antt =====
-- The parts that `New` of internal/proxy/proxy.go makes of a configuration that `Load` returns.
use sticky_proxy.Prelude.{
  ◌≡◌, ◌≢◌, inl, inr, refl, ap, sym, ◌∙◌, subst, String, Bool, true, false, Option, none, some,
  is_empty, Bool-cases, arith,
}
use sticky_proxy.Config.{Config, same, Environment, ok}
use sticky_proxy.Config.Load.{load}
use sticky_proxy.Config.Consistent.{IsConsistent, load-IsConsistent, same-eq, same_refl}
use sticky_proxy.Startup.{
  Store, memory, redis_store, postgres_store, postgres_source, Parts, Opens, Made, made, fails,
  panics, ◌>>=◌, opened, open_store, open_source, strategy_of, open_discoverer, positive,
  open_poison, prune_panics, wire,
}

-- It does not panic, and what it makes has the property.
data Safe {A : Type 0} (P : A → Type 0) : Made A → Type 0 where
  built : (a : A) → P a → Safe P (made a)
  failed : Safe P fails

after :
    {A B : Type 0} {Q : A → Type 0} {P : B → Type 0} (m : Made A) (f : A → Made B)
    → Safe Q m
    → ((a : A) → Q a → Safe P (f a))
    → Safe P (m >>= f)
unfolding ◌>>=◌
after m f (built a q) h = h a q
after m f failed h = failed

Safe-eq :
    {A : Type 0} (P : A → Type 0) (m : Made A)
    → Safe P m
    → (m ≢ panics) × ((a : A) → m ≡ made a → P a)
Safe-eq P m (built b p) = ((λ h. absurd (ground arith)), λ a h. subst P (ground arith) p)
Safe-eq P m failed = ((λ h. absurd (ground arith)), λ a h. absurd (ground arith))

opened-Safe : {A : Type 0} (P : A → Type 0) (b : Bool) (a : A) → P a → Safe P (opened b a)
opened-Safe P true a p = built a p
opened-Safe P false a p = failed

-- The client is there exactly with the store in Redis.
abbrev KeptBy : Config → Store × Bool → Type 0
KeptBy c (memory, b) = (c.assignment_store ≡ "memory") × (b ≡ false)
KeptBy c (redis_store, b) = b ≡ true
KeptBy c (postgres_store, b) = (c.assignment_store ≡ "postgres") × (b ≡ false)

open_store-Safe : (c : Config) (o : Opens) → Safe (KeptBy c) (open_store c o)
unfolding open_store
open_store-Safe c o = elim (Bool-cases (same c.assignment_store "memory")) [
  | inl m ↦ rw m (built _ (same-eq c.assignment_store "memory" m, refl))
  | inr m ↦ rw m (elim (Bool-cases (same c.assignment_store "postgres")) [
    | inl p ↦
        rw p (opened-Safe (KeptBy c) o.postgres _ (same-eq c.assignment_store "postgres" p, refl))
    | inr p ↦ rw p (opened-Safe (KeptBy c) o.redis _ refl)
  ])
]

KeptBy-redis :
    (c : Config) (k : Store × Bool) → KeptBy c k → c.assignment_store ≡ "redis" → k.1 ≡ true
KeptBy-redis c (memory, b) h e =
    absurd (let x : same "memory" "redis" ≡ true = same_refl "memory" "redis" (sym h.0 ∙ e) in cc)
KeptBy-redis c (redis_store, b) h e = h
KeptBy-redis c (postgres_store, b) h e =
    absurd
      (let x : same "postgres" "redis" ≡ true = same_refl "postgres" "redis" (sym h.0 ∙ e) in cc)

abbrev There : {A : Type 0} → Option (Option A) → Type 0
There none = Unit
There (some none) = ⊥
There (some (some a)) = Unit

-- One of the values that the tests have ruled out.
not_same : (s x : String) → same s x ≡ false → s ≡ x → ⊥
not_same s x h e = let t = same_refl s x e in cc

not_empty_text : (s : String) → is_empty s ≡ false → s ≡ "" → ⊥
unfolding is_empty
not_empty_text s h e = let t : is_empty s ≡ true = ap is_empty e in cc

open_source-Safe :
    (c : Config) (o : Opens) (has_redis : Bool)
    → IsConsistent c
    → (c.accounts_discovery ≡ "redis" → has_redis ≡ true)
    → Safe There (open_source c o has_redis)
unfolding open_source
open_source-Safe c o has_redis w client = elim (Bool-cases (is_empty c.accounts_discovery)) [
  | inl a ↦ rw a (built none tt)
  | inr a ↦ rw a (elim (Bool-cases (same c.accounts_discovery "redis")) [
    | inl b ↦ rw (b, client (same-eq c.accounts_discovery "redis" b)) (built _ tt)
    | inr b ↦ rw b (elim (Bool-cases (same c.accounts_discovery "http")) [
      | inl d ↦ rw d (built _ tt)
      | inr d ↦ rw d (elim (Bool-cases (same c.accounts_discovery "postgres")) [
        | inl e ↦ rw e (opened-Safe There o.accounts (some (some postgres_source)) tt)
        | inr e ↦ absurd (elim w.source [
          | inl x ↦ not_empty_text c.accounts_discovery a x
          | inr (inl x) ↦ not_same c.accounts_discovery "redis" b x
          | inr (inr (inl x)) ↦ not_same c.accounts_discovery "http" d x
          | inr (inr (inr x)) ↦ not_same c.accounts_discovery "postgres" e x
        ])
      ])
    ])
  ])
]

strategy_of-There : (c : Config) → IsConsistent c → There (strategy_of c)
unfolding strategy_of
strategy_of-There c w = elim (Bool-cases (same c.rebalance_strategy "none")) [
  | inl a ↦ rw a tt
  | inr a ↦ rw a (elim (Bool-cases (same c.rebalance_strategy "least-loaded")) [
    | inl b ↦ rw b tt
    | inr b ↦ rw b (elim (Bool-cases (same c.rebalance_strategy "consistent-hash")) [
      | inl d ↦ rw d tt
      | inr d ↦ absurd (elim w.strategy [
        | inl x ↦ not_same c.rebalance_strategy "none" a x
        | inr (inl x) ↦ not_same c.rebalance_strategy "least-loaded" b x
        | inr (inr x) ↦ not_same c.rebalance_strategy "consistent-hash" d x
      ])
    ])
  ])
]

abbrev Any : {A : Type 0} → A → Type 0
Any a = Unit

open_discoverer-Safe : (c : Config) (o : Opens) → Safe Any (open_discoverer c o)
unfolding open_discoverer
open_discoverer-Safe c o = elim (Bool-cases (same c.backend_discovery "dns")) [
  | inl a ↦ rw a (built _ tt)
  | inr a ↦ rw a (elim (Bool-cases (same c.backend_discovery "kubernetes")) [
    | inl b ↦ rw b (opened-Safe Any o.cluster _ tt)
    | inr b ↦ rw b (built _ tt)
  ])
]

-- A window of the detector that it can tick with, if there is a detector.
abbrev pub Ticks : Config → Type 0
Ticks c = c.poison_pill_action ≡ "quarantine" → positive c.poison_pill_window ≡ true

prune_panics-false : (c : Config) → Ticks c → prune_panics c ≡ false
unfolding prune_panics open_poison
prune_panics-false c t = elim (Bool-cases (same c.poison_pill_action "quarantine")) [
  | inl a ↦ rw (a, t (same-eq c.poison_pill_action "quarantine" a)) refl
  | inr a ↦ rw a refl
]

-- No part is a nil interface, the store suits the routing mode, and the goroutine of the detector does
-- not panic.
pub record IsWhole (c : Config) (p : Parts) : Type 0 where
  pub source_there : p.source ≢ some none
  pub strategy_there : p.strategy ≢ some none
  pub with_client : c.assignment_store ≡ "redis" → p.has_redis ≡ true
  pub in_memory : p.store ≡ memory → c.routing_mode ≡ "hash"
  pub in_postgres :
      p.store ≡ postgres_store → (c.routing_mode ≡ "assignment") × (c.postgres_dsn ≢ "")
  pub steady : p.prune_panics ≡ false

There-ne : {A : Type 0} (o : Option (Option A)) → There o → o ≢ some none
There-ne o t e = subst There e t

KeptBy-memory :
    (c : Config) (k : Store × Bool) → KeptBy c k → k.0 ≡ memory → c.assignment_store ≡ "memory"
KeptBy-memory c (memory, b) h e = h.0
KeptBy-memory c (redis_store, b) h e = absurd (ground arith)
KeptBy-memory c (postgres_store, b) h e = absurd (ground arith)

KeptBy-postgres :
    (c : Config) (k : Store × Bool)
    → KeptBy c k
    → k.0 ≡ postgres_store
    → c.assignment_store ≡ "postgres"
KeptBy-postgres c (memory, b) h e = absurd (ground arith)
KeptBy-postgres c (redis_store, b) h e = absurd (ground arith)
KeptBy-postgres c (postgres_store, b) h e = h.0

wire-Safe : (c : Config) (o : Opens) → IsConsistent c → Ticks c → Safe (IsWhole c) (wire c o)
unfolding wire
wire-Safe c o w t = after _ _ (open_store-Safe c o) λ kept k.
    after _ _ (open_source-Safe c o kept.1 w (λ e. KeptBy-redis c kept k (w.accounts_need_redis e)))
      λ source s. after _ _ (open_discoverer-Safe c o) λ d any. built _ (record {
        source_there = There-ne source s;
        strategy_there = There-ne (strategy_of c) (strategy_of-There c w);
        with_client = KeptBy-redis c kept k;
        in_memory = λ e. w.memory_needs_hash (KeptBy-memory c kept k e);
        in_postgres = λ e.
            let p = KeptBy-postgres c kept k e in
            (w.postgres_needs_table p, w.postgres_needs_dsn p);
        steady = prune_panics-false c t;
      })

-- From a configuration that `Load` returns, with a positive window if there is a detector, `New` does not
-- panic, whatever can be opened, nor does the goroutine of the detector it makes; and what it makes has no
-- nil source or strategy, has a Redis client if
-- the store is Redis, keeps the store in memory only in hash mode, and in Postgres only in assignment
-- mode with an address.
pub wire-IsWhole :
    (e : Environment) (c : Config) (o : Opens)
    → load e ≡ ok c
    → Ticks c
    → (wire c o ≢ panics) × ((p : Parts) → wire c o ≡ made p → IsWhole c p)
wire-IsWhole e c o h t = Safe-eq (IsWhole c) (wire c o) (wire-Safe c o (load-IsConsistent e c h) t)
