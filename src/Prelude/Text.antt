-- ===== src/Prelude/Text.antt =====
-- Text as the source writes it: template literals, `String(n)` and `Number(s)` on whole numbers.
use Prim.Native.Nat.{ℕ, zero, suc, ◌+◌, ◌-◌, ◌*◌, ◌/◌, ◌%◌, ◌<◌, ◌≤◌}
use Prim.Native.Char.{code}
use Prim.Native.String
use Prim.Native.String.{String, [], ◌∷◌}
use mathlib.Core.Path.{◌≡◌, refl, ap}
use mathlib.Core.Bool.{◌&&◌}
use mathlib.Core.List.{List}
use mathlib.Core.Option.{Option, none, some}
use native.Mathlib.Omega.{arith}
use text.Mathlib.TextLemmas.{nil-append, cons-append, cons≢nil}
use mathlib.Core.Logic.{◌≢◌, inl, inr}
use omni_model.Prelude.Tests.{leb, ltb, eqb, ltb→lt, Bool-cases, if◌then◌else◌}

-- Two parts of a template literal.
infixr 66 ◌<>◌
abbrev pub ◌<>◌ : String → String → String
s <> t = String.◌++◌ s t

digit : ℕ → String
digit zero = "0"
digit (suc zero) = "1"
digit (suc (suc zero)) = "2"
digit (suc (suc (suc zero))) = "3"
digit (suc (suc (suc (suc zero)))) = "4"
digit (suc (suc (suc (suc (suc zero))))) = "5"
digit (suc (suc (suc (suc (suc (suc zero)))))) = "6"
digit (suc (suc (suc (suc (suc (suc (suc zero))))))) = "7"
digit (suc (suc (suc (suc (suc (suc (suc (suc zero)))))))) = "8"
digit (suc (suc (suc (suc (suc (suc (suc (suc (suc n))))))))) = "9"

show_from : ℕ → ℕ → String
show_from zero n = ""
show_from (suc f) n =
    let longer = show_from f (n / 10) <> digit (n % 10) in if ltb n 10 then digit n else longer

-- `String(n)` of a natural number below 1e21, where JavaScript prints plain decimals.
unfoldable pub show : ℕ → String
unfolding show_from digit
show n = show_from (suc n) n

unfoldable pub read_from : ℕ → String → Option ℕ
read_from acc [] = some acc
read_from acc (c ∷ s) =
    if leb 48 (code c) && leb (code c) 57 then read_from (acc * 10 + (code c - 48)) s else none

-- A non-empty run of decimal digits.
unfoldable pub read : String → Option ℕ
unfolding read_from
read [] = none
read (c ∷ s) = read_from 0 (c ∷ s)

abbrev pub bind_read : Option ℕ → (ℕ → Option ℕ) → Option ℕ
bind_read none k = none
bind_read (some a) k = k a

read_from-append :
    (acc : ℕ) (s t : String)
    → read_from acc (s <> t) ≡ bind_read (read_from acc s) (λ a. read_from a t)
unfolding read_from
read_from-append acc [] t = rw nil-append
read_from-append acc (c ∷ s) t =
    rw cons-append (ground (arith, read_from-append (acc * 10 + (code c - 48)) s t))

read_from-digit : (acc d : ℕ) → d < 10 → read_from acc (digit d) ≡ some (acc * 10 + d)
unfolding read_from digit
read_from-digit acc zero h = ground arith
read_from-digit acc (suc zero) h = ground arith
read_from-digit acc (suc (suc zero)) h = ground arith
read_from-digit acc (suc (suc (suc zero))) h = ground arith
read_from-digit acc (suc (suc (suc (suc zero)))) h = ground arith
read_from-digit acc (suc (suc (suc (suc (suc zero))))) h = ground arith
read_from-digit acc (suc (suc (suc (suc (suc (suc zero)))))) h = ground arith
read_from-digit acc (suc (suc (suc (suc (suc (suc (suc zero))))))) h = ground arith
read_from-digit acc (suc (suc (suc (suc (suc (suc (suc (suc zero)))))))) h = ground arith
read_from-digit acc (suc (suc (suc (suc (suc (suc (suc (suc (suc zero))))))))) h = ground arith
read_from-digit acc (suc (suc (suc (suc (suc (suc (suc (suc (suc (suc n)))))))))) h =
    absurd (omega arith)

read_from-show_from : (f n : ℕ) → n < f → read_from 0 (show_from f n) ≡ some n
unfolding show_from
read_from-show_from zero n h = elim h [ ]
read_from-show_from (suc f) n h = elim (Bool-cases (ltb n 10)) [
  | inl small ↦ rw small (rw (read_from-digit 0 n (ltb→lt _ _ small)) (ground arith))
  | inr large ↦ rw large (
      rw (read_from-append 0 (show_from f (n / 10)) (digit (n % 10))) (
        rw (read_from-show_from f (n / 10) (ground arith))
          (rw (read_from-digit (n / 10) (n % 10) (omega arith)) (ground arith))))
]

read-eq-read_from : (s : String) (n : ℕ) → s ≢ [] → read_from 0 s ≡ some n → read s ≡ some n
unfolding read
read-eq-read_from [] n h e = absurd (h refl)
read-eq-read_from (c ∷ s) n h e = e

zero-not-nil : show 0 ≢ ""
unfolding show
zero-not-nil e = cons≢nil e

show-ne-nil : (n : ℕ) → show n ≢ ""
unfolding show read_from
show-ne-nil n e =
    let known : read_from 0 (show n) ≡ some n = read_from-show_from (suc n) n (omega arith) in
    let zeroed : some 0 ≡ some n = rw e at known in
    let same : n ≡ 0 = cc in zero-not-nil (rw same at e)

-- Reading a printed number gives the number.
pub read-show : (n : ℕ) → read (show n) ≡ some n
unfolding show
read-show n =
    read-eq-read_from (show n) n (show-ne-nil n) (read_from-show_from (suc n) n (omega arith))

-- Different numbers print differently.
pub show-injective : (m n : ℕ) → show m ≡ show n → m ≡ n
show-injective m n e = cc (read-show m, read-show n, ap read e)

abbrev pub AllDigits : String → Type 0
AllDigits [] = Unit
AllDigits (c ∷ s) = (48 ≤ code c) × (code c ≤ 57) × AllDigits s

read_from-AllDigits : (acc n : ℕ) (s : String) → read_from acc s ≡ some n → AllDigits s
unfolding read_from
read_from-AllDigits acc n [] h = tt
read_from-AllDigits acc n (c ∷ s) h =
    ground (arith, read_from-AllDigits (acc * 10 + (code c - 48)) n s)

pub show-AllDigits : (n : ℕ) → AllDigits (show n)
unfolding show
show-AllDigits n = read_from-AllDigits 0 n (show n) (read_from-show_from (suc n) n (omega arith))

-- `texts.join(separator)`
abbrev pub join : String → List String → String
join separator List.[] = ""
join separator (List.◌∷◌ s List.[]) = s
join separator (List.◌∷◌ s (List.◌∷◌ t ss)) = s <> separator <> join separator (List.◌∷◌ t ss)

-- What follows a prefix, if the text starts with it.
unfoldable pub strip_prefix : String → String → Option String
strip_prefix [] s = some s
strip_prefix (p ∷ ps) [] = none
strip_prefix (p ∷ ps) (c ∷ s) = if eqb (code p) (code c) then strip_prefix ps s else none
