-- ===== src/Providers/Wire.antt =====
-- packages/core/src/openai/types.ts: the parts of a chat request and of a streamed chunk that the
-- providers read and write. `J` stands for the JSON values that they pass through. A number that is
-- not whole is kept in thousandths.
use omni_model.Prelude.{ℕ, String, Bool, Option, List}
use omni_model.Prelude.Int.{ℤ}
use omni_model.Server.Response.{ChatToolCall, Content}
use omni_model.Server.Effects.{Usage}

pub record RequestMessage : Type 0 where
  pub role : String
  pub content : Content
  pub tool_calls : Option (List ChatToolCall)
  pub tool_call_id : Option String

pub record ChatTool (J : Type 0) : Type 0 where
  pub name : String
  pub description : Option String
  pub parameters : Option J

pub data ToolChoice : Type 0 where
  no_tool any_tool required_tool : ToolChoice
  function_tool : String → ToolChoice
  -- absent, or of no shape that a provider knows
  other_choice : ToolChoice

pub data Stop : Type 0 where
  one_stop : String → Stop
  stops : List String → Stop

pub record ChatCompletionRequest (J : Type 0) : Type 0 where
  pub model : String
  pub messages : List RequestMessage
  pub stream : Bool
  pub include_usage : Bool
  pub max_tokens : Option ℕ
  pub max_completion_tokens : Option ℕ
  pub temperature : Option ℤ
  pub top_p : Option ℤ
  pub n : Option ℕ
  pub stop : Option Stop
  pub tools : Option (List (ChatTool J))
  pub tool_choice : ToolChoice
  pub user : Option String

pub record ChatChunkToolCall : Type 0 where
  pub index : ℕ
  pub id : Option String
  pub name : Option String
  pub arguments : String

pub record ChatChunkDelta : Type 0 where
  pub role : Option String
  pub content : Option String
  pub tool_calls : List ChatChunkToolCall

pub record ChatChunkChoice : Type 0 where
  pub index : ℕ
  pub delta : ChatChunkDelta
  pub finish_reason : Option String

pub record ChatCompletionChunk : Type 0 where
  pub id : String
  pub created : ℕ
  pub model : String
  pub choices : List ChatChunkChoice
  pub usage : Option Usage
