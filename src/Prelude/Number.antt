-- ===== src/Prelude/Number.antt =====
-- The numbers of the source's counters, as texts and as values.
use Prim.Native.Nat.{ℕ, zero, suc, ◌≤◌}
use Prim.Native.Char.{code}
use Prim.Native.String.{String, [], ◌∷◌}
use mathlib.Core.Path.{◌≡◌, refl, ap}
use mathlib.Core.Bool.{Bool, true, false}
use mathlib.Core.Option.{Option, none, some}
use native.Mathlib.Omega.{arith}
use text.Mathlib.TextLemmas.{nil-append, cons-append}
use omni_model.Prelude.Int.{ℤ, pos, negsuc, ◌+ℤ◌, leb_ℤ, ltb_ℤ, +ℤ_assoc, +ℤ_zero}
use omni_model.Prelude.Tests.{eqb, if◌then◌else◌}
use omni_model.Prelude.Text.{◌<>◌, show, read, read_from, read-show}

-- A number of the source that a counter holds: a whole number, or `NaN`.
pub data JsNumber : Type 0 where
  int : ℤ → JsNumber
  nan : JsNumber

unfoldable pub add : JsNumber → ℤ → JsNumber
add (int a) b = int (a +ℤ b)
add nan b = nan

pub add-zero_left : (n : ℤ) → add (int (pos zero)) n ≡ int n
unfolding add ◌+ℤ◌
add-zero_left n = ground arith

pub add_assoc : (x : JsNumber) (a b : ℤ) → add (add x a) b ≡ add x (a +ℤ b)
unfolding add
add_assoc (int x) a b = ap int (+ℤ_assoc x a b)
add_assoc nan a b = refl

pub add-zero_right : (x : JsNumber) → add x (pos zero) ≡ x
unfolding add
add-zero_right (int a) = ap int (+ℤ_zero a)
add-zero_right nan = refl

-- `a >= b` and `a > b`: false of `NaN`.
abbrev pub at_least : JsNumber → ℕ → Bool
at_least (int a) b = leb_ℤ (pos b) a
at_least nan b = false

abbrev pub above : JsNumber → ℕ → Bool
above (int a) b = ltb_ℤ (pos b) a
above nan b = false

-- A number that grew is still at least what it was at least before.
pub at_least-add :
    (x : JsNumber) (a b limit : ℕ)
    → a ≤ b
    → at_least (add x (pos a)) limit ≡ true
    → at_least (add x (pos b)) limit ≡ true
unfolding add ◌+ℤ◌
at_least-add (int x) a b limit h e = ground arith
at_least-add nan a b limit h e = cc

-- `String(n)`
unfoldable pub to_text : JsNumber → String
to_text (int (pos n)) = show n
to_text (int (negsuc n)) = "-" <> show (suc n)
to_text nan = "NaN"

negated : Option ℕ → JsNumber
negated none = nan
negated (some zero) = int (pos zero)
negated (some (suc n)) = int (negsuc n)

plain : Option ℕ → JsNumber
plain none = nan
plain (some n) = int (pos n)

-- `Number(s)` of the texts that `to_text` writes; any other text is read as `NaN`.
unfoldable pub to_number : String → JsNumber
unfolding negated plain
to_number [] = nan
to_number (c ∷ s) = if eqb (code c) b'-' then negated (read s) else plain (read (c ∷ s))

to_number_of_read : (t : String) (n : ℕ) → read t ≡ some n → to_number t ≡ int (pos n)
unfolding to_number read read_from
to_number_of_read [] n h = cc
to_number_of_read (c ∷ s) n h = ground (arith, h)

to_number-minus : (t : String) → to_number ("-" <> t) ≡ negated (read t)
unfolding to_number
to_number-minus t = rw cons-append (rw nil-append)

-- What is printed is read back.
pub to_number-to_text : (x : JsNumber) → to_number (to_text x) ≡ x
unfolding to_number to_text read
to_number-to_text (int (pos n)) = to_number_of_read (show n) n (read-show n)
to_number-to_text (int (negsuc n)) = rw to_number-minus (rw (read-show (suc n)))
to_number-to_text nan = refl
