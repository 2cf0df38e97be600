-- ===== src/Util/Duration.antt =====
-- `parseDuration` of packages/core/src/util/duration.ts, and `String.prototype.trim`.
use Prim.Native.Char.{code}
use Prim.Native.String.{[], ◌∷◌}
use omni_model.Prelude.{
  ℕ, ◌*◌, String, Bool, Option, none, some, ◌==◌, ◌||◌, ◌&&◌, leb, eqb, if◌then◌else◌,
}
use omni_model.Prelude.Text.{◌<>◌, read}
use omni_model.Prelude.Result.{Result, ok, err}

-- The white space and line ends that `trim` removes.
unfoldable pub is_space : ℕ → Bool
is_space c =
    leb 9 c && leb c 13
    || eqb c 32
    || eqb c 160
    || eqb c 0x1680
    || leb 0x2000 c && leb c 0x200a
    || eqb c 0x2028
    || eqb c 0x2029
    || eqb c 0x202f
    || eqb c 0x205f
    || eqb c 0x3000
    || eqb c 0xfeff

trim_start : String → String
trim_start [] = ""
trim_start (c ∷ s) = let rest = trim_start s in if is_space (code c) then rest else c ∷ s

trim_end : String → String
trim_end [] = ""
trim_end (c ∷ s) = let rest = trim_end s in if rest == "" && is_space (code c) then "" else c ∷ rest

unfoldable pub trim : String → String
unfolding trim_start trim_end
trim s = trim_end (trim_start s)

unfoldable pub is_digit : ℕ → Bool
is_digit c = leb 48 c && leb c 57

-- `\d+` takes the longest run of digits, since no unit begins with one.
unfoldable pub span_digits : String → String × String
span_digits [] = ("", "")
span_digits (c ∷ s) =
    let (ds, rest) = span_digits s in if is_digit (code c) then (c ∷ ds, rest) else ("", c ∷ s)

-- `UNIT_MS`
unfoldable pub unit_ms : String → Option ℕ
unit_ms unit =
    if unit == "ms"
    then some 1
    else if unit == "s"
    then some 1000
    else if unit == "m"
    then some 60000
    else if unit == "h"
    then some 3600000
    else if unit == "d"
    then some 86400000
    else none

scaled : String → Option ℕ → Option ℕ → Result String ℕ
scaled input (some n) (some ms) = ok (n * ms)
scaled input _ _ =
    err ("invalid duration \"" <> input <> "\" (expected e.g. \"30s\", \"5m\", \"1h\", \"1d\")")

-- `/^(\d+)(ms|s|m|h|d)$/` on the trimmed input, then `Number(digits) * UNIT_MS[unit]`.
unfoldable pub parse_duration : String → Result String ℕ
unfolding scaled
parse_duration input =
    let (ds, unit) = span_digits (trim input) in scaled input (read ds) (unit_ms unit)
