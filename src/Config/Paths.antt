-- ===== src/Config/Paths.antt =====
-- The list of public paths in `Load` of internal/config/config.go, and the functions of Go's `strings`
-- that it uses.
use Prim.Native.Char.{code}
use sticky_proxy.Prelude.{
  ℕ, String, Bool, ◌&&◌, ◌||◌, List, [], ◌∷◌, is_empty, if◌then◌else◌, ◌==◌, leb,
}

-- `unicode.IsSpace`
unfoldable pub is_space : ℕ → Bool
is_space c =
    (leb 9 c && leb c 13)
    || (c == 32
        || (c == 133
            || (c == 160
                || (c == 5760
                    || ((leb 8192 c && leb c 8202)
                        || (c == 8232
                            || (c == 8233 || (c == 8239 || (c == 8287 || c == 12288)))))))))

-- `strings.TrimSpace`
unfoldable pub trim_left : String → String
unfolding is_space
trim_left String.[] = ""
trim_left (String.◌∷◌ c s) =
    let rest = trim_left s in if is_space (code c) then rest else String.◌∷◌ c s

unfoldable pub trim_right : String → String
unfolding is_space
trim_right String.[] = ""
trim_right (String.◌∷◌ c s) =
    let rest = trim_right s in if is_empty rest && is_space (code c) then "" else String.◌∷◌ c rest

-- `strings.Split(pp, ",")`
unfoldable pub split_commas : String → List String
split_commas String.[] = "" ∷ []
split_commas (String.◌∷◌ c s) =
    let rest = split_commas s in
    if code c == 44
    then "" ∷ rest
    else (elim rest [ [] ↦ String.◌∷◌ c "" ∷ [] | x ∷ xs ↦ String.◌∷◌ c x ∷ xs ])

-- The loop over `PUBLIC_PATHS`.
unfoldable pub keep_paths : List String → List String
unfolding trim_left trim_right
keep_paths [] = []
keep_paths (x ∷ xs) =
    let path = trim_right (trim_left x) in
    let rest = keep_paths xs in if is_empty path then rest else path ∷ rest
