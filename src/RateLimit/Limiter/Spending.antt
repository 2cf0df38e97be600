-- ===== src/RateLimit/Limiter/Spending.antt =====
-- What `recordUsage` writes.
use omni_model.Prelude.{
  ℕ, ◌+◌, ◌*◌, ◌≤◌, ◌<◌, suc, zero, String, ◌≡◌, ◌≢◌, sym, ap, ◌∙◌, inl, inr, true, ◌&&◌, Option,
  none, some, List, [], ◌∷◌, ◌++◌, arith, All, Bool-cases, keep, if◌then◌else◌, ◌==◌, eq_refl, leb,
  leb→le,
}
use omni_model.Prelude.Int.{ℤ, pos, negsuc, +ℤ_pos}
use omni_model.Prelude.Number.{JsNumber, at_least, add, add_assoc, add-zero_right}
use omni_model.Facts.{RequestFacts}
use omni_model.Storage.{StorageAdapter, KeepsCounters}
use omni_model.RateLimit.Limiter.{
  CompiledRule, applies, applicable_rules, allowed, key_of, rejection, window_start_for,
  record_rules, record_usage,
}
use omni_model.RateLimit.Limiter.Compile.{IsUsable}
use omni_model.RateLimit.Limiter.Windows.{window_start_same}
use omni_model.RateLimit.Limiter.Check.{exhausted}

-- How many of the rules that apply count under the key.
abbrev pub uses : ℕ → RequestFacts → String → List CompiledRule → ℕ
uses now facts key [] = 0
uses now facts key (rule ∷ rules) =
    (if applies rule facts && (key_of now facts rule == key) then 1 else 0)
    + uses now facts key rules

-- The tokens that a response is charged: none for a total that is not a finite positive number.
abbrev pub charged : Option ℤ → ℕ
charged none = 0
charged (some (pos n)) = n
charged (some (negsuc n)) = 0

same_sum : (x : JsNumber) (a b : ℕ) → a ≡ b → add x (pos a) ≡ add x (pos b)
same_sum x a b h = ap (λ k. add x (pos k)) h

times_zero : (u n : ℕ) → n ≤ 0 → 0 ≡ u * n
times_zero u zero h = grind arith
times_zero u (suc n) h = absurd (omega arith)

one_more : (x : JsNumber) (n u : ℕ) → add (add x (pos n)) (pos (u * n)) ≡ add x (pos ((1 + u) * n))
one_more x n u =
    add_assoc x (pos n) (pos (u * n))
    ∙ ap (add x) (+ℤ_pos n (u * n))
    ∙ same_sum x (n + u * n) ((1 + u) * n) (grind arith)

module _ (store : StorageAdapter) (laws : KeepsCounters store) (now : ℕ)
    (facts : RequestFacts) where
  open laws use {counter, added_only}

  counter-record_rules :
      (n : ℕ) (rules : List CompiledRule) (s : store.State) (k : String)
      → All (λ r. IsUsable r.tokens) rules
      → counter (record_rules store now facts (pos n) (keep (λ r. applies r facts) rules) s) k
        ≡ add (counter s k) (pos (uses now facts k rules * n))
  unfolding record_rules
  counter-record_rules n [] s k h =
      sym (add-zero_right (counter s k)) ∙ same_sum (counter s k) 0 (0 * n) (grind arith)
  counter-record_rules n (rule ∷ rules) s k (usable, h) = elim (Bool-cases (applies rule facts)) [
    | inl applied ↦ rw applied (
        counter-record_rules n rules _ k h
        ∙ rw (added_only _ k (pos n) rule.tokens.ttl_seconds s (omega (arith, usable.outlived)))
            (elim (Bool-cases (key_of now facts rule == k)) [
              | inl here ↦ rw here (one_more (counter s k) n (uses now facts k rules))
              | inr apart ↦ rw apart (
                  same_sum (counter s k) (uses now facts k rules * n)
                    ((0 + uses now facts k rules) * n) (grind arith))
            ]))
    | inr skipped ↦ rw skipped (
        counter-record_rules n rules s k h
        ∙ same_sum (counter s k) (uses now facts k rules * n) ((0 + uses now facts k rules) * n)
            (grind arith))
  ]

  -- A response's tokens are added once for each applicable rule that counts under the key, and to no
  -- other key; a total that is absent, not finite, zero or negative adds nothing.
  pub counter-record_usage :
      (compiled : List CompiledRule) (total : Option ℤ) (s : store.State) (k : String)
      → All (λ r. IsUsable r.tokens) compiled
      → counter (record_usage store now compiled facts total s) k
        ≡ add (counter s k) (pos (uses now facts k compiled * charged total))
  unfolding record_usage applicable_rules
  counter-record_usage compiled none s k h =
      sym (add-zero_right (counter s k))
      ∙ same_sum (counter s k) 0 (uses now facts k compiled * 0) (grind arith)
  counter-record_usage compiled (some (negsuc n)) s k h =
      sym (add-zero_right (counter s k))
      ∙ same_sum (counter s k) 0 (uses now facts k compiled * 0) (grind arith)
  counter-record_usage compiled (some (pos n)) s k h = elim (Bool-cases (leb n 0)) [
    | inl nothing ↦ rw nothing (
        sym (add-zero_right (counter s k))
        ∙ same_sum (counter s k) 0 (uses now facts k compiled * n)
            (times_zero _ n (leb→le n 0 nothing)))
    | inr something ↦ rw something (counter-record_rules n compiled s k h)
  ]

pub uses-own :
    (now : ℕ) (facts : RequestFacts) (before after : List CompiledRule) (rule : CompiledRule)
    → applies rule facts ≡ true
    → 0 < uses now facts (key_of now facts rule) (before ++ rule ∷ after)
uses-own now facts [] after rule applied = rw applied (rw eq_refl (omega arith))
uses-own now facts (r ∷ before) after rule applied =
    omega (arith, uses-own now facts before after rule applied)

pub rejection-ne-allowed : (now : ℕ) (rule : CompiledRule) → rejection now rule ≢ allowed
unfolding rejection
rejection-ne-allowed now rule e = cc

pub All-at :
    (P : CompiledRule → Type 0) (before after : List CompiledRule) (rule : CompiledRule)
    → All P (before ++ rule ∷ after)
    → P rule
All-at P [] after rule (h, hs) = h
All-at P (r ∷ before) after rule (h, hs) = All-at P before after rule hs

pub key_of_same_window :
    (now later : ℕ) (facts : RequestFacts) (rule : CompiledRule)
    → 0 < rule.tokens.window_ms
    → window_start_for now rule.tokens.window_ms ≤ later
    → later < window_start_for now rule.tokens.window_ms + rule.tokens.window_ms
    → key_of later facts rule ≡ key_of now facts rule
unfolding key_of
key_of_same_window now later facts rule h from to =
    rw (window_start_same now later rule.tokens.window_ms h from to)

pub exhausted-intro :
    (counter : String → JsNumber) (later : ℕ) (facts : RequestFacts) (rule : CompiledRule)
    → applies rule facts ≡ true
    → at_least (counter (key_of later facts rule)) rule.tokens.limit ≡ true
    → exhausted counter later facts rule ≡ true
exhausted-intro counter later facts rule applied full = rw applied full

pub le-times : (u n : ℕ) → 0 < u → n ≤ u * n
le-times zero n h = elim h [ ]
le-times (suc u) n h = grind arith
