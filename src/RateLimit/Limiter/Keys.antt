-- ===== src/RateLimit/Limiter/Keys.antt =====
-- The keys that token counters stand under: which rule, whose budget, which window.
use Prim.Native.Char.{Char, code}
use Prim.Native.String.{[], ◌∷◌}
use text.Mathlib.TextLemmas.{
  nil-append, cons-append, append_assoc, append_cancel_left, head-eq_of_cons-eq, tail-eq_of_cons-eq,
}
use omni_model.Prelude.{ℕ, String, ◌≡◌, ◌≢◌, refl, sym, ap, ◌∙◌, subst, arith}
use omni_model.Prelude.Text.{◌<>◌, AllDigits, show, show-AllDigits, show-injective}
use omni_model.RateLimit.Limiter.{token_key}

-- A text without `:`.
abbrev pub NoColon : String → Type 0
NoColon [] = Unit
NoColon (c ∷ s) = (code c ≢ b':') × NoColon s

abbrev colon : Char
colon = ":"

colon-append : (s : String) → ":" <> s ≡ colon ∷ s
colon-append s = cons-append colon "" s ∙ ap (λ t. colon ∷ t) (nil-append s)

after_nil : (s : String) → "" <> ":" <> s ≡ colon ∷ s
after_nil s = nil-append (":" <> s) ∙ colon-append s

not_colon : {c : Char} {s t : String} → code c ≢ b':' → Path String (colon ∷ s) (c ∷ t) → ⊥
not_colon h e = h (sym (ap code (head-eq_of_cons-eq e)))

-- Before the first `:` nothing is ambiguous.
split_first :
    (r r' x y : String)
    → NoColon r
    → NoColon r'
    → r <> ":" <> x ≡ r' <> ":" <> y
    → (r ≡ r') × (x ≡ y)
split_first [] [] x y h h' e = (refl, tail-eq_of_cons-eq (sym (after_nil x) ∙ e ∙ after_nil y))
split_first [] (c ∷ r') x y h (n, h') e =
    absurd (not_colon n (sym (after_nil x) ∙ e ∙ cons-append c r' (":" <> y)))
split_first (c ∷ r) [] x y (n, h) h' e =
    absurd (not_colon n (sym (after_nil y) ∙ sym e ∙ cons-append c r (":" <> x)))
split_first (c ∷ r) (d ∷ r') x y (n, h) (n', h') e =
    let e' = sym (cons-append c r (":" <> x)) ∙ e ∙ cons-append d r' (":" <> y) in
    let (same, rest) = split_first r r' x y h h' (tail-eq_of_cons-eq e') in
    (cc (head-eq_of_cons-eq e', same), rest)

colon_inside : (k d : String) → NoColon (k <> ":" <> d) → ⊥
colon_inside [] d h = (subst NoColon (after_nil d) h).0 refl
colon_inside (c ∷ k) d h = colon_inside k d (subst NoColon (cons-append c k (":" <> d)) h).1

-- After the last `:` nothing is ambiguous.
split_last :
    (k k' d d' : String)
    → NoColon d
    → NoColon d'
    → k <> ":" <> d ≡ k' <> ":" <> d'
    → (k ≡ k') × (d ≡ d')
split_last [] [] d d' h h' e = (refl, tail-eq_of_cons-eq (sym (after_nil d) ∙ e ∙ after_nil d'))
split_last [] (c ∷ k') d d' h h' e = absurd (
    colon_inside k' d'
      (subst NoColon (tail-eq_of_cons-eq (sym (after_nil d) ∙ e ∙ cons-append c k' (":" <> d'))) h))
split_last (c ∷ k) [] d d' h h' e = absurd (
    colon_inside k d (
      subst NoColon (tail-eq_of_cons-eq (sym (after_nil d') ∙ sym e ∙ cons-append c k (":" <> d)))
        h'))
split_last (c ∷ k) (b ∷ k') d d' h h' e =
    let e' = sym (cons-append c k (":" <> d)) ∙ e ∙ cons-append b k' (":" <> d') in
    let (same, rest) = split_last k k' d d' h h' (tail-eq_of_cons-eq e') in
    (cc (head-eq_of_cons-eq e', same), rest)

digits-NoColon : (s : String) → AllDigits s → NoColon s
digits-NoColon [] h = tt
digits-NoColon (c ∷ s) (from, to, h) = (omega arith, digits-NoColon s h)

show-NoColon : (n : ℕ) → NoColon (show n)
show-NoColon n = digits-NoColon (show n) (show-AllDigits n)

-- Rules whose ids hold no `:` never share a counter: a key determines the rule's id, the budget's
-- owner and the window.
pub token_key-injective :
    (id id' owner owner' : String) (start start' : ℕ)
    → NoColon id
    → NoColon id'
    → token_key id owner start ≡ token_key id' owner' start'
    → (id ≡ id') × (owner ≡ owner') × (start ≡ start')
unfolding token_key
token_key-injective id id' owner owner' start start' h h' e =
    let (same_id, rest) = split_first id id' _ _ h h' (append_cancel_left "rl:tok:" _ _ e) in
    let (same_owner, same_start) =
      split_last owner owner' _ _ (show-NoColon start) (show-NoColon start') rest in
    (same_id, same_owner, show-injective start start' same_start)

-- A `:` in a rule's id lets two rules share the counters of two users.
pub token_key_shared :
    (a b c : String) (start : ℕ)
    → token_key (a <> ":" <> b) c start ≡ token_key a (b <> ":" <> c) start
unfolding token_key
token_key_shared a b c start = simp append_assoc
