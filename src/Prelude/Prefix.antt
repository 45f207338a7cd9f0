-- ===== src/Prelude/Prefix.antt =====
-- What a string with a prefix is.
use Prim.Native.String.{◌++◌ as concat}
use Prim.Native.String.append
use Prim.Native.Char.{Char, code}
use text.Mathlib.TextEquality.{codes_equal}
use sticky_proxy.Prelude.{◌≡◌, sym, ap, ◌∙◌, String, true, some, ◌==◌, trim_prefix, arith}

code_test : (c : Char) → (code c == code c) ≡ true
code_test c = ground arith

pub trim_prefix-concat : (p t : String) → trim_prefix p (concat p t) ≡ some t
unfolding trim_prefix
trim_prefix-concat String.[] t = ap some (append.nil t)
trim_prefix-concat (String.◌∷◌ c p) t = rw (append.cons c p t, code_test c) (trim_prefix-concat p t)

pub trim_prefix-eq : (p s t : String) → trim_prefix p s ≡ some t → s ≡ concat p t
unfolding trim_prefix
trim_prefix-eq String.[] s t h = ground (arith, append.nil t)
trim_prefix-eq (String.◌∷◌ c p) String.[] t h = absurd (ground arith)
trim_prefix-eq (String.◌∷◌ c p) (String.◌∷◌ d s) t h =
    (λ i. String.◌∷◌ (codes_equal d c (ground arith) i) (trim_prefix-eq p s t (ground arith) i))
    ∙ sym (append.cons c p t)
