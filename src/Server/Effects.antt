-- ===== src/Server/Effects.antt =====
-- What handling a request does, in order, with what it comes to: a value, or what was thrown.
use omni_model.Prelude.{String, ℕ, Option, List, [], ◌∷◌, ◌++◌}
use omni_model.Prelude.Result.{Result, ok, err}
use omni_model.Errors.{OmniError}

-- An `OmniError`, or another error with its message.
pub data Thrown : Type 0 where
  omni : OmniError → Thrown
  failure : String → Thrown

pub record Usage : Type 0 where
  pub prompt_tokens : ℕ
  pub completion_tokens : ℕ
  pub total_tokens : ℕ

-- A cached answer: the answer of an upstream before its redaction, or the text of its stream.
pub data CachedEntry (C : Type 0) : Type 0 where
  completion_entry : C → Option Usage → CachedEntry C
  stream_entry : String → Option Usage → CachedEntry C

-- The acts of a request that others can see.
pub data Act (C : Type 0) : Type 0 where
  -- the observer's reports
  reported_limit : String → Act C
  reported_route : String → String → String → Act C
  reported_cached : Act C
  -- a provider was called for a model
  called : String → String → Act C
  -- the slot of the request
  acquired released : Act C
  -- work for after the response
  charged : Usage → Act C
  stored : String → CachedEntry C → Act C

abbrev pub Run : Type 0 → Type 0 → Type 0
Run C A = List (Act C) × Result Thrown A

module _ {C : Type 0} where
  abbrev pub done : {A : Type 0} → A → Run C A
  done a = ([], ok a)

  abbrev pub throw : {A : Type 0} → Thrown → Run C A
  throw thrown = ([], err thrown)

  abbrev pub act : Act C → Run C (Unit {0})
  act a = (a ∷ [], ok tt)

  infixl 5 ◌>>=◌ ◌>>◌
  abbrev pub ◌>>=◌ : {A B : Type 0} → Run C A → (A → Run C B) → Run C B
  (acts, ok a) >>= next = (acts ++ (next a).0, (next a).1)
  (acts, err thrown) >>= next = (acts, err thrown)

  abbrev pub ◌>>◌ : {B : Type 0} → Run C (Unit {0}) → Run C B → Run C B
  first >> next = first >>= λ unit. next

  -- `try`: what was thrown becomes a value.
  abbrev pub attempt : {A : Type 0} → Run C A → Run C (Result Thrown A)
  attempt (acts, result) = (acts, ok result)

  abbrev pub from_result : {A : Type 0} → Result Thrown A → Run C A
  from_result result = ([], result)
