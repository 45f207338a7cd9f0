-- ===== src/Prelude/Sort.antt =====
-- `sort.Strings`, as a sort by insertion.
use mathlib.Core.List.{List, [], ◌∷◌, Perm, Permᴰ}
use mathlib.Core.List.Perm
use mathlib.Core.HLevel.{hedberg}
use mathlib.Core.Path.{◌∙◌, ap₂, refl, ◌≡◌, refl, ◌∙◌}
use mathlib.Core.Logic.{inl, inr, ∥∥₁_elim}
use Prim.Native.String.{String}
use native.Mathlib.Omega.{arith}
use sticky_proxy.Prelude.Tests.{if◌then◌else◌, Bool-cases}
use sticky_proxy.Prelude.Texts.{str_dec, str_leb, str_leb_total, str_leb_trans, str_leb_antisymm}

unfoldable pub insert : String → List String → List String
insert x [] = x ∷ []
insert x (y ∷ ys) = if str_leb x y then x ∷ y ∷ ys else y ∷ insert x ys

unfoldable pub sort : List String → List String
unfolding insert
sort [] = []
sort (x ∷ xs) = insert x (sort xs)

insert-perm : (x : String) (ys : List String) → Perm (insert x ys) (x ∷ ys)
unfolding insert
insert-perm x [] = Perm.refl _
insert-perm x (y ∷ ys) = elim (Bool-cases (str_leb x y)) [
  | inl e ↦ rw e (Perm.refl _)
  | inr e ↦ rw e (Perm.trans (Perm.cons y (insert-perm x ys)) (Perm.swap x y ys))
]

pub sort-perm : (xs : List String) → Perm (sort xs) xs
unfolding sort
sort-perm [] = Perm.refl _
sort-perm (x ∷ xs) = Perm.trans (insert-perm x (sort xs)) (Perm.cons x (sort-perm xs))

insert_comm : (x y : String) (zs : List String) → insert x (insert y zs) ≡ insert y (insert x zs)
unfolding insert
insert_comm x y [] = ground (arith, str_leb_total x y, str_leb_total y x, str_leb_antisymm x y)
insert_comm x y (z ∷ zs) = ground (
  arith,
  insert_comm x y zs,
  str_leb_total x y,
  str_leb_total y x,
  str_leb_antisymm x y,
  str_leb_trans x y z,
  str_leb_trans y x z,
  str_leb_trans x z y,
  str_leb_trans y z x,
  str_leb_total x z,
  str_leb_total y z,
)

List-set : IsSet (List String)
List-set = hlevel (hedberg str_dec)

sort-Permᴰ : {xs ys : List String} → Permᴰ xs ys → sort xs ≡ sort ys
unfolding sort
sort-Permᴰ Permᴰ.nil = refl
sort-Permᴰ (Permᴰ.cons e p) = ap₂ insert e (sort-Permᴰ p)
sort-Permᴰ (Permᴰ.swap {a = a} {b = b} {l = l} e f) =
    insert_comm a b (sort l) ∙ ap₂ (λ x y. insert x (insert y (sort l))) f e
sort-Permᴰ (Permᴰ.trans p q) = sort-Permᴰ p ∙ sort-Permᴰ q

-- The order in which the elements come does not matter.
pub sort-eq_of_perm : {xs ys : List String} → Perm xs ys → sort xs ≡ sort ys
sort-eq_of_perm p = ∥∥₁_elim p (List-set _ _) sort-Permᴰ
