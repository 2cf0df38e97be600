-- ===== src/Server/KeyShape.antt =====
-- What a client's header presents: `presentedSecret` of packages/core/src/server/writekey.ts and
-- `looksLikeWriteKey` of packages/core/src/writekeys/keys.ts. A header holds no line ends, so the dot
-- of the header's pattern matches every character.
use Prim.Native.Char.{code}
use Prim.Native.String.{[], ◌∷◌}
use omni_model.Prelude.{
  ℕ, ◌+◌, String, Bool, true, ◌&&◌, ◌||◌, not, Option, none, some, ◌==◌, if◌then◌else◌, eqb, leb,
  ltb,
}
use omni_model.Util.Duration.{trim, is_space, is_digit}
use omni_model.Server.PublicPath.{starts_with}

unfoldable pub char_count : String → ℕ
char_count [] = 0
char_count (c ∷ s) = 1 + char_count s

-- A letter in either case.
unfoldable pub is_letter : ℕ → ℕ → Bool
is_letter upper c = eqb c upper || eqb c (upper + 32)

-- `value.match(/^Bearer\s+(.+)$/i)?.[1]`, up to white space around it
unfoldable pub after_scheme : String → Option String
after_scheme (b ∷ e ∷ a ∷ r ∷ e' ∷ r' ∷ s ∷ rest) =
    if is_letter 66 (code b)
      && is_letter 69 (code e)
      && is_letter 65 (code a)
      && is_letter 82 (code r)
      && is_letter 69 (code e')
      && is_letter 82 (code r')
      && is_space (code s)
    then some rest
    else none
after_scheme _ = none

unfoldable pub not_blank : String → Option String
not_blank secret = if secret == "" then none else some secret

unfoldable pub presented_secret : String → Option String
presented_secret value = elim (after_scheme value) [
  | none ↦ none
  | some rest ↦ not_blank (trim rest)
]

unfoldable pub is_key_char : ℕ → Bool
is_key_char c = leb 65 c && leb c 90 || leb 97 c && leb c 122 || is_digit c || eqb c 95 || eqb c 45

unfoldable pub all_key_chars : String → Bool
all_key_chars [] = true
all_key_chars (c ∷ s) = is_key_char (code c) && all_key_chars s

-- `value.slice("omk_".length)`
unfoldable pub after_prefix : String → String
after_prefix (a ∷ b ∷ c ∷ d ∷ s) = s
after_prefix _ = ""

unfoldable pub looks_like_write_key : String → Bool
looks_like_write_key value =
    starts_with value "omk_"
    && ltb 20 (char_count value)
    && all_key_chars (after_prefix value)
    && not (after_prefix value == "")
