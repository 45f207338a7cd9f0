-- ===== src/Prelude/Texts.antt =====
-- Texts: their decidable equality, and the order of Go's `<` on strings. Go compares bytes; on
-- UTF-8 that is the order of the code points.
use Prim.Native.Char.{code}
use Prim.Native.String.{String}
use mathlib.Core.Path.{◌≡◌, ap, refl, ap₂}
use mathlib.Core.Logic.{◌≢◌, ite}
use mathlib.Core.Bool.{Bool, true, false, ◌||◌}
use mathlib.Core.Option.{Option, none, some}
use mathlib.Core.List.{List, [], ◌∷◌, ◌++◌}
use native.Mathlib.Omega.{arith}
use text.Mathlib.Text.{◌==◌ as str_eq}
use text.Mathlib.TextEquality.{eq_iff, codes_equal}
use sticky_proxy.Prelude.Tests.{ltb, ◌==◌, if◌then◌else◌}

pub str_ne : (s t : String) → str_eq s t ≡ false → ¬ (s ≡ t)
str_ne s t h e = ground (arith, (eq_iff s t).1 e)

abbrev dec_of_test {ℓ} : {A : Type ℓ} (b : Bool) → (b ≡ true → A) → (b ≡ false → ¬ A) → Dec A
dec_of_test true f g = yes (f refl)
dec_of_test false f g = no (g refl)

unfoldable pub str_dec : Discrete String
str_dec s t = dec_of_test (str_eq s t) (eq_iff s t).0 (str_ne s t)

-- `s <= t`
unfoldable pub str_leb : String → String → Bool
str_leb String.[] t = true
str_leb (String.◌∷◌ c s) String.[] = false
str_leb (String.◌∷◌ c s) (String.◌∷◌ d t) =
    if ltb (code c) (code d) then true else if ltb (code d) (code c) then false else str_leb s t

pub str_leb_refl : (s : String) → str_leb s s ≡ true
unfolding str_leb
str_leb_refl String.[] = refl
str_leb_refl (String.◌∷◌ c s) = ground (arith, str_leb_refl s)

pub str_leb_total : (s t : String) → str_leb s t ≡ false → str_leb t s ≡ true
unfolding str_leb
str_leb_total String.[] t h = cc
str_leb_total (String.◌∷◌ c s) String.[] h = refl
str_leb_total (String.◌∷◌ c s) (String.◌∷◌ d t) h = ground (arith, str_leb_total s t)

pub str_leb_trans : (s t u : String) → str_leb s t ≡ true → str_leb t u ≡ true → str_leb s u ≡ true
unfolding str_leb
str_leb_trans String.[] t u h k = refl
str_leb_trans (String.◌∷◌ c s) String.[] u h k = ground arith
str_leb_trans (String.◌∷◌ c s) (String.◌∷◌ d t) String.[] h k = ground arith
str_leb_trans (String.◌∷◌ c s) (String.◌∷◌ d t) (String.◌∷◌ e u) h k =
    ground (arith, str_leb_trans s t u)

pub str_leb_antisymm : (s t : String) → str_leb s t ≡ true → str_leb t s ≡ true → s ≡ t
unfolding str_leb
str_leb_antisymm String.[] String.[] h k = refl
str_leb_antisymm String.[] (String.◌∷◌ d t) h k = ground arith
str_leb_antisymm (String.◌∷◌ c s) String.[] h k = ground arith
str_leb_antisymm (String.◌∷◌ c s) (String.◌∷◌ d t) h k =
    ap₂ String.◌∷◌ (codes_equal c d (ground arith))
      (str_leb_antisymm s t (ground arith) (ground arith))

-- Whether a text stands in a list.
unfoldable pub listed : String → List String → Bool
listed key [] = false
listed key (k ∷ ks) = ite (str_dec k key) true (listed key ks)

pub listed-append :
    (key : String) (xs ys : List String) → listed key (xs ++ ys) ≡ listed key xs || listed key ys
unfolding listed
listed-append key [] ys = refl
listed-append key (x ∷ xs) ys = ground (arith, listed-append key xs ys)

-- `s == ""`
unfoldable pub is_empty : String → Bool
is_empty String.[] = true
is_empty (String.◌∷◌ c s) = false

pub not_empty : (s : String) → is_empty s ≡ false → s ≢ ""
unfolding is_empty
not_empty String.[] h e = cc
not_empty (String.◌∷◌ c s) h e = let same : false ≡ true = ap is_empty e in cc

-- What follows the prefix, where the text has it: `strings.TrimPrefix` and `strings.HasPrefix`.
unfoldable pub trim_prefix : String → String → Option String
trim_prefix String.[] s = some s
trim_prefix (String.◌∷◌ c p) String.[] = none
trim_prefix (String.◌∷◌ c p) (String.◌∷◌ d s) =
    let rest = trim_prefix p s in if code c == code d then rest else none

unfoldable pub has_prefix : String → String → Bool
unfolding trim_prefix
has_prefix s prefix = elim (trim_prefix prefix s) [ none ↦ false | some rest ↦ true ]
