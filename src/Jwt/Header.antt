-- ===== src/Jwt/Header.antt =====
-- Which headers have a token (`extractUserIDFromJWT` of internal/proxy/jwt.go).
use Prim.Native.String.{◌++◌ as concat}
use Prim.Native.String.append
use Prim.Native.Char.{Char, code}
use sticky_proxy.Prelude.{
  ◌≡◌, refl, sym, ap, ◌∙◌, String, Option, none, some, ◌==◌, str_dec, ite, trim_prefix, true,
  Bool-cases, inl, inr, arith,
}
use sticky_proxy.Prelude.Prefix.{trim_prefix-eq}
use sticky_proxy.Jwt.{before_space, after_space, bearer_token}

space : (s : String) (c : Char) → (code c == 32) ≡ true → String.◌∷◌ c s ≡ concat " " s
space s c e = trim_prefix-eq " " (String.◌∷◌ c s) s (unfold trim_prefix in ground arith)

concat_assoc : (a b c : String) → concat a (concat b c) ≡ concat (concat a b) c
concat_assoc String.[] b c = append.nil (concat b c) ∙ ap (λ x. concat x c) (sym (append.nil b))
concat_assoc (String.◌∷◌ x a) b c =
    append.cons x a (concat b c)
    ∙ ap (String.◌∷◌ x) (concat_assoc a b c)
    ∙ sym (append.cons x (concat a b) c)
    ∙ ap (λ y. concat y c) (sym (append.cons x a b))

bearer_concat : (t : String) → concat "Bearer" (concat " " t) ≡ concat "Bearer " t
bearer_concat t = concat_assoc "Bearer" " " t

-- A header with a space is what is before the first one, the space, and what is after it.
after_space-eq :
    (s t : String) → after_space s ≡ some t → s ≡ concat (before_space s) (concat " " t)
unfolding after_space before_space
after_space-eq String.[] t h = absurd (ground arith)
after_space-eq (String.◌∷◌ c s) t h = elim (Bool-cases (code c == 32)) [
  | inl e ↦
      simp (e) (space s c e ∙ ap (concat " ") (ground arith) ∙ sym (append.nil (concat " " t)))
  | inr e ↦
      let rest = after_space-eq s t (simp (e) at h) in
      simp (e) (ap (String.◌∷◌ c) rest ∙ sym (append.cons c (before_space s) (concat " " t)))
]

-- A header has a token only if it is "Bearer " and the token.
pub bearer_token-eq :
    (header token : String) → bearer_token header ≡ some token → header ≡ concat "Bearer " token
unfolding bearer_token
bearer_token-eq header token h = there (after_space header) refl h
  where
    there :
        (o : Option String)
        → after_space header ≡ o
        → elim o [
          | none ↦ none
          | some t ↦ ite (str_dec (before_space header) "Bearer") (some t) none
        ]
          ≡ some token
        → header ≡ concat "Bearer " token
    there none e h = absurd (ground arith)
    there (some t) e h = elim (str_dec (before_space header) "Bearer") [
      | no n ↦ absurd (ground arith)
      | yes y ↦
          let same : t ≡ token = ground arith in
          after_space-eq header t e
          ∙ ap (λ x. concat x (concat " " t)) y
          ∙ bearer_concat t
          ∙ ap (concat "Bearer ") same
    ]
