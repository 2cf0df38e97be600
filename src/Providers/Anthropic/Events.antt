-- ===== src/Providers/Anthropic/Events.antt =====
-- The events of a stream, and the state of `streamResult` in packages/core/src/providers/anthropic.ts.
use omni_model.Prelude.{
  ℕ, String, Bool, true, false, Option, none, some, List, [], ◌∷◌, ◌==◌, eqb, any, if◌then◌else◌,
}
use omni_model.Providers.Wire.{ChatChunkDelta}

-- The fields of an event, where they are of the type that is looked for.
pub record AnthropicStreamEvent : Type 0 where
  pub type : Option String
  pub index : Option ℕ
  pub message_id : Option String
  pub input_tokens : Option ℕ
  pub block_type : Option String
  pub block_id : Option String
  pub block_name : Option String
  pub delta_type : Option String
  pub text : Option String
  pub partial_json : Option String
  pub stop_reason : Option String
  pub output_tokens : Option ℕ

pub record StreamState : Type 0 where
  pub chunk_id : String
  pub input_tokens : ℕ
  pub output_tokens : ℕ
  pub saw_usage : Bool
  -- the content block's index and the tool call's, in the order of the calls
  pub tool_index_by_block : List (ℕ × ℕ)
  pub next_tool_index : ℕ
  pub tool_blocks_with_args : List ℕ
  pub tool_blocks_flushed : List ℕ

abbrev pub start : StreamState
start = record {
  chunk_id = "chatcmpl-unknown";
  input_tokens = 0;
  output_tokens = 0;
  saw_usage = false;
  tool_index_by_block = [];
  next_tool_index = 0;
  tool_blocks_with_args = [];
  tool_blocks_flushed = [];
}

unfoldable pub get_index : ℕ → List (ℕ × ℕ) → Option ℕ
get_index block [] = none
get_index block ((b, index) ∷ m) = if eqb b block then some index else get_index block m

unfoldable pub set_index : ℕ → ℕ → List (ℕ × ℕ) → List (ℕ × ℕ)
set_index block index [] = (block, index) ∷ []
set_index block index ((b, old) ∷ m) =
    let rest = set_index block index m in if eqb b block then (b, index) ∷ m else (b, old) ∷ rest

abbrev pub has_block : ℕ → List ℕ → Bool
has_block block blocks = any (λ b. eqb b block) blocks

unfoldable pub is_text : Option String → String → Bool
is_text none t = false
is_text (some s) t = s == t

abbrev pub no_delta : ChatChunkDelta
no_delta = record { role = none; content = none; tool_calls = [] }

-- The delta of one tool call.
abbrev pub call_delta : ℕ → Option String → Option String → String → ChatChunkDelta
call_delta index id name arguments = record no_delta {
  tool_calls = record { index = index; id = id; name = name; arguments = arguments } ∷ [];
}

unfoldable pub selected : Option ℕ → ℕ → Bool
selected none block = true
selected (some only) block = eqb block only
