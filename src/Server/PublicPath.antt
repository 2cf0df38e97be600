-- ===== src/Server/PublicPath.antt =====
-- `isPublicPath` of packages/core/src/server/auth.ts.
use Prim.Native.Char.{code}
use Prim.Native.String.{[], ◌∷◌}
use omni_model.Prelude.{String, List, Bool, true, false, ◌&&◌, ◌==◌, if◌then◌else◌, eqb, any}

-- `s.endsWith("*")`
unfoldable pub ends_with_star : String → Bool
ends_with_star [] = false
ends_with_star (c ∷ s) = let later = ends_with_star s in if s == "" then eqb (code c) 42 else later

-- `s.slice(0, -1)`
unfoldable pub drop_last : String → String
drop_last [] = ""
drop_last (c ∷ s) = let rest = drop_last s in if s == "" then "" else c ∷ rest

unfoldable pub starts_with : String → String → Bool
starts_with s [] = true
starts_with [] (p ∷ prefix) = false
starts_with (c ∷ s) (p ∷ prefix) = eqb (code c) (code p) && starts_with s prefix

unfoldable pub matches_pattern : String → String → Bool
matches_pattern path pattern =
    if ends_with_star pattern then starts_with path (drop_last pattern) else path == pattern

unfoldable pub is_public_path : String → List String → Bool
is_public_path path public_paths = any (matches_pattern path) public_paths
