-- ===== src/Startup/Window.antt =====
-- The window of the poison pill detector as `Load` of internal/config/config.go takes it and `New` of
-- internal/proxy/proxy.go uses it.
use sticky_proxy.Prelude.{◌≡◌, refl, ap, sym, subst, ◌∙◌, true, false, some, is_empty, arith}
use sticky_proxy.Prelude.Int.{ℤ}
use text.Mathlib.TextEquality.{eq_iff}
use sticky_proxy.Config.{Config, Environment, ok, parse_time, parsed, seconds}
use sticky_proxy.Config.Load.{load}
use sticky_proxy.Config.Checks.{load-Watched}
use sticky_proxy.Startup.{
  Parts, Opens, Made, made, fails, panics, ◌>>=◌, positive, open_poison, prune_panics, wire,
}

-- What a made value comes from.
from :
    {A B : Type 0} (Q : B → Type 0) (m : Made A) (f : A → Made B) (b : B)
    → ((a : A) → f a ≡ made b → Q b)
    → (m >>= f) ≡ made b
    → Q b
unfolding ◌>>=◌
from Q (made a) f b h e = h a e
from Q fails f b h e = absurd (ground arith)
from Q panics f b h e = absurd (ground arith)

made_eq : {A : Type 0} (a b : A) → made a ≡ made b → a ≡ b
made_eq a b e = ground arith

abbrev Crashes : Parts → Type 0
Crashes p = (p.has_poison ≡ true) × (p.prune_panics ≡ true)

prune_panics_lem :
    (c : Config)
    → c.poison_pill_action ≡ "quarantine"
    → positive c.poison_pill_window ≡ false
    → (open_poison c ≡ true) × (prune_panics c ≡ true)
unfolding open_poison prune_panics
prune_panics_lem c a w = rw ((eq_iff c.poison_pill_action "quarantine").1 a, w) (refl, refl)

window_of :
    (e : Environment) (w v : ℤ)
    → is_empty (e.getenv "POISON_PILL_WINDOW") ≡ false
    → e.parse_duration (e.getenv "POISON_PILL_WINDOW") ≡ some w
    → parse_time e "POISON_PILL_WINDOW" (seconds 300) ≡ ok v
    → w ≡ v
unfolding parse_time parsed
window_of e w v given p q = ground arith

-- When the detector is enabled with a window that parses to a duration of zero or less, whatever `New`
-- makes of a configuration that `Load` has returned has a detector, whose goroutine panics.
pub wire-prune_panics :
    (e : Environment) (c : Config) (o : Opens) (w : ℤ) (p : Parts)
    → load e ≡ ok c
    → e.getenv "POISON_PILL_ACTION" ≡ "quarantine"
    → is_empty (e.getenv "POISON_PILL_WINDOW") ≡ false
    → e.parse_duration (e.getenv "POISON_PILL_WINDOW") ≡ some w
    → positive w ≡ false
    → wire c o ≡ made p
    → (p.has_poison ≡ true) × (p.prune_panics ≡ true)
unfolding wire
wire-prune_panics e c o w p h action given parses small =
    let (same_action, same_window) = load-Watched e c h in
    let v = window_of e w c.poison_pill_window given parses same_window in
    let broken = prune_panics_lem c (same_action ∙ action) (sym (ap positive v) ∙ small) in
    from Crashes _ _ p λ kept.
      from Crashes _ _ p
        λ source. from Crashes _ _ p λ d made_p. subst Crashes (made_eq _ p made_p) broken
