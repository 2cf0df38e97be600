-- ===== src/RateLimit/Limiter/Compile.antt =====
-- What `createRateLimiter` guarantees of the rules that it accepts.
use omni_model.Prelude.{
  ℕ, ◌+◌, ◌*◌, ◌≤◌, ◌<◌, String, ◌≡◌, refl, sym, ap, ◌∙◌, subst, false, List, [], ◌∷◌, map, arith,
  eq_iff, All,
}
use omni_model.Prelude.Result.{Result, ok, >>=-eq-ok, ok-injective}
use omni_model.Facts.{ExpressionEngine}
use omni_model.RateLimit.Limiter.{
  RuleConfig, CompiledWindow, CompiledRule, compile_window, identity_of, compile_when, compile_rule,
  seen, not_seen, compile_rules, create_rate_limiter,
}

-- No text of the list is seen again later in it.
abbrev pub Distinct : List String → Type 0
Distinct [] = Unit
Distinct (x ∷ xs) = (seen x xs ≡ false) × Distinct xs

-- A window is not empty, and its counter outlives it by at least a minute.
pub record IsUsable (w : CompiledWindow) : Type 0 where
  pub positive : 0 < w.window_ms
  pub outlived : w.window_ms + 60000 ≤ w.ttl_seconds * 1000

compile_window-IsUsable :
    (limit : ℕ) (window name : String) (w : CompiledWindow)
    → compile_window limit window name ≡ ok w
    → IsUsable w
unfolding compile_window
compile_window-IsUsable limit window name w h = ground arith

-- A compiled rule has the identity of its configuration and a usable window.
record Compiles (rule : RuleConfig) (r : CompiledRule) : Type 0 where
  named : identity_of rule ≡ ok (r.id, r.name)
  usable : IsUsable r.tokens

compile_rule-Compiles :
    (engine : ExpressionEngine) (rule : RuleConfig) (r : CompiledRule)
    → compile_rule engine rule ≡ ok r
    → Compiles rule r
unfolding compile_rule
compile_rule-Compiles engine rule r h =
    let (identity, named, h') = >>=-eq-ok (identity_of rule) _ h in
    let (when, compiled, h'') = >>=-eq-ok (compile_when engine rule.when identity.1) _ h' in
    let (tokens, window, done) =
      >>=-eq-ok (compile_window rule.limit rule.window identity.1) _ h'' in
    subst (Compiles rule) (ok-injective done) (record {
      named = named;
      usable = compile_window-IsUsable rule.limit rule.window identity.1 tokens window;
    })

-- The rules of `out` are distinct, and none has an id or a name that was seen before.
record Keeps (ids names : List String) (out : List CompiledRule) : Type 0 where
  fresh_ids : All (λ r. seen r.id ids ≡ false) out
  fresh_names : All (λ r. seen r.name names ≡ false) out
  distinct_ids : Distinct (map (λ r. r.id) out)
  distinct_names : Distinct (map (λ r. r.name) out)

seen-map :
    (x : String) (f : CompiledRule → String) (xs : List String) (out : List CompiledRule)
    → All (λ r. seen (f r) (x ∷ xs) ≡ false) out
    → (seen x (map f out) ≡ false) × All (λ r. seen (f r) xs ≡ false) out
seen-map x f xs [] h = (refl, tt)
seen-map x f xs (r ∷ rs) (h, hs) =
    ground (arith, seen-map x f xs rs hs, eq_iff x (f r), eq_iff (f r) x)

not_seen-fresh :
    (id name : String) (ids names : List String)
    → not_seen id name ids names ≡ ok tt
    → (seen id ids ≡ false) × (seen name names ≡ false)
unfolding not_seen
not_seen-fresh id name ids names h = ground arith

Keeps-cons :
    (id name : String) (ids names : List String) (r : CompiledRule) (rest : List CompiledRule)
    → (seen id ids ≡ false) × (seen name names ≡ false)
    → id ≡ r.id
    → name ≡ r.name
    → Keeps (id ∷ ids) (name ∷ names) rest
    → Keeps ids names (r ∷ rest)
Keeps-cons id name ids names r rest (new_id, new_name) same_id same_name k =
    let (id_apart, ids_fresh) = seen-map id (λ r. r.id) ids rest k.fresh_ids in
    let (name_apart, names_fresh) = seen-map name (λ r. r.name) names rest k.fresh_names in
    record {
      fresh_ids = (rw same_id at new_id, ids_fresh);
      fresh_names = (rw same_name at new_name, names_fresh);
      distinct_ids = (rw same_id at id_apart, k.distinct_ids);
      distinct_names = (rw same_name at name_apart, k.distinct_names);
    }

abbrev Accepted : List String → List String → List CompiledRule → Type 0
Accepted ids names out = Keeps ids names out × All (λ r. IsUsable r.tokens) out

-- One round of the loop, from what its steps returned.
Accepted-cons :
    (engine : ExpressionEngine) (rule : RuleConfig) (identity : String × String)
    (ids names : List String) (r : CompiledRule) (rest out : List CompiledRule)
    → identity_of rule ≡ ok identity
    → not_seen identity.0 identity.1 ids names ≡ ok tt
    → compile_rule engine rule ≡ ok r
    → Accepted (identity.0 ∷ ids) (identity.1 ∷ names) rest
    → ◌≡◌ {A = Result String (List CompiledRule)} (ok (r ∷ rest)) (ok out)
    → Accepted ids names out
Accepted-cons engine rule identity ids names r rest out named unseen compiled (k, usable) done =
    let c = compile_rule-Compiles engine rule r compiled in
    let same : identity ≡ (r.id, r.name) = ok-injective (sym named ∙ c.named) in
    subst (Accepted ids names) (ok-injective done) (
      Keeps-cons identity.0 identity.1 ids names r rest
          (not_seen-fresh identity.0 identity.1 ids names unseen)
          (ap (λ (p : String × String). p.0) same) (ap (λ (p : String × String). p.1) same) k,
      (c.usable, usable),
    )

compile_rules-Accepted :
    (engine : ExpressionEngine) (ids names : List String) (rules : List RuleConfig)
    (out : List CompiledRule)
    → compile_rules engine ids names rules ≡ ok out
    → Accepted ids names out
unfolding compile_rules
compile_rules-Accepted engine ids names [] out h =
    subst (Accepted ids names) (ok-injective h)
      (record { fresh_ids = tt; fresh_names = tt; distinct_ids = tt; distinct_names = tt }, tt)
compile_rules-Accepted engine ids names (rule ∷ rules) out h =
    let (identity, named, h') = >>=-eq-ok (identity_of rule) _ h in
    let (u, unseen, h'') = >>=-eq-ok (not_seen identity.0 identity.1 ids names) _ h' in
    let (r, compiled, h₃) = >>=-eq-ok (compile_rule engine rule) _ h'' in
    let (rest, looped, done) =
      >>=-eq-ok (compile_rules engine (identity.0 ∷ ids) (identity.1 ∷ names) rules) _ h₃ in
    Accepted-cons engine rule identity ids names r rest out named unseen compiled
      (compile_rules-Accepted engine (identity.0 ∷ ids) (identity.1 ∷ names) rules rest looped) done

-- Whenever the configuration is accepted, the ids of the rules are distinct, so are their names,
-- every window is longer than 0, and every counter outlives its window by a minute or more.
pub create_rate_limiter_sound :
    (engine : ExpressionEngine) (rules : List RuleConfig) (out : List CompiledRule)
    → create_rate_limiter engine rules ≡ ok out
    → Distinct (map (λ r. r.id) out)
      × Distinct (map (λ r. r.name) out)
      × All (λ r. IsUsable r.tokens) out
unfolding create_rate_limiter
create_rate_limiter_sound engine rules out h =
    let (k, usable) = compile_rules-Accepted engine [] [] rules out h in
    (k.distinct_ids, k.distinct_names, usable)
