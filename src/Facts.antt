-- ===== src/Facts.antt =====
-- What the proxy knows of a request when it decides on it: `RequestFacts`, and the compiled
-- expressions that read it (packages/core/src/routing/types.ts). The expression language is a
-- library: an engine is a parameter, a compiled expression is a function of the facts.
use omni_model.Prelude.{ℕ, String, Bool, false, Option, List, or_else, or_option}
use omni_model.Prelude.Result.{Result}

-- Verified claims reach only the expressions, so they are kept as their JSON text; so are the two
-- numbers that a client may send as fractions.
pub record RequestFacts : Type 0 where
  pub model : String
  pub input_token_count : ℕ
  pub max_tokens : Option String
  pub temperature : Option String
  pub user_id : Option String
  pub user_claims : String
  pub user_providers : List String
  pub client_id : Option String
  pub client_name : Option String
  pub http_method : String
  pub http_path : String
  pub http_ip : Option String
  pub http_headers : List (String × String)

-- What evaluating an expression does: a Boolean, a value of another type (by its `typeof`), or an
-- error with its message.
pub data Evaluation : Type 0 where
  boolean : Bool → Evaluation
  other : String → Evaluation
  threw : String → Evaluation

abbrev pub CompiledExpression : Type 0
CompiledExpression = RequestFacts → Evaluation

-- `engine.compile(source)`, which throws on a syntax error.
abbrev pub ExpressionEngine : Type 0
ExpressionEngine = String → Result String CompiledExpression

-- `result === true`
abbrev pub is_true : Evaluation → Bool
is_true (boolean b) = b
is_true (other t) = false
is_true (threw e) = false

-- Whose budget a request spends: `limitKeyFor` of the token limiter, the owner of the concurrency
-- limiter's slots.
unfoldable pub limit_key_for : RequestFacts → String
limit_key_for facts =
    or_else (or_option facts.user_id (or_option facts.client_id facts.http_ip)) "anonymous"
