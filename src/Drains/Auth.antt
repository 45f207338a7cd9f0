-- ===== src/Drains/Auth.antt =====
-- Who passes `AdminAuth` (internal/proxy/admin.go).
use Prim.Native.String.{◌++◌ as concat}
use sticky_proxy.Prelude.{
  ◌≡◌, ◌≢◌, ◌↔◌, refl, ap, ◌∙◌, String, Option, none, some, is_empty, not_empty, str_dec, if_pos,
  trim_prefix, arith,
}
use sticky_proxy.Prelude.Prefix.{trim_prefix-concat, trim_prefix-eq}
use sticky_proxy.Drains.{compare_token, admin_auth, passed, unauthorized}

-- `AdminAuth` passes a request on exactly when a token is configured and the header is "Bearer " and
-- that token.
pub admin_auth-passed :
    (token auth : String)
    → (admin_auth token auth ≡ passed) ↔ ((token ≢ "") × (auth ≡ concat "Bearer " token))
unfolding admin_auth is_empty compare_token
admin_auth-passed String.[] auth = ((λ h. absurd (ground arith)), (λ h. absurd (h.0 refl)))
admin_auth-passed (String.◌∷◌ c token) auth = (
  λ h. (not_empty (String.◌∷◌ c token) refl, there (trim_prefix "Bearer " auth) refl h),
  λ h.
      rw (h.1, trim_prefix-concat "Bearer " (String.◌∷◌ c token))
        (if_pos (str_dec (String.◌∷◌ c token) (String.◌∷◌ c token)) refl passed unauthorized),
)
  where
    there :
        (o : Option String)
        → trim_prefix "Bearer " auth ≡ o
        → compare_token (String.◌∷◌ c token) o ≡ passed
        → auth ≡ concat "Bearer " (String.◌∷◌ c token)
    there none e h = absurd (ground arith)
    there (some provided) e h = elim (str_dec provided (String.◌∷◌ c token)) [
      | yes p ↦ trim_prefix-eq "Bearer " auth provided e ∙ ap (concat "Bearer ") p
      | no p ↦ absurd (ground arith)
    ]
