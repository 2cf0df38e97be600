-- ===== src/Providers/Anthropic/Stream/Message.antt =====
-- A message as Anthropic streams it, the same message as a whole, and what a client of OpenAI's API puts
-- together from chunks.
use omni_model.Prelude.{
  ℕ, zero, suc, String, Option, none, some, List, [], ◌∷◌, ◌++◌, or_else, or_option,
}
use omni_model.Prelude.Text.{◌<>◌}
use omni_model.Providers.Wire.{ChatChunkToolCall, ChatChunkChoice, ChatCompletionChunk}
use omni_model.Providers.Anthropic.Completion.{
  ResponseBlock, text_answer, tool_answer, AnthropicResponseBody,
}
use omni_model.Providers.Anthropic.Events.{AnthropicStreamEvent}

-- A text by its deltas, or a tool call's id, name, the deltas of its input, and the input.
pub data StreamedBlock (J : Type 0) : Type 0 where
  streamed_text : List String → StreamedBlock J
  streamed_call : String → String → List String → J → StreamedBlock J

pub record StreamedMessage (J : Type 0) : Type 0 where
  pub id : String
  pub blocks : List (StreamedBlock J)
  pub stop_reason : String
  pub input_tokens : ℕ
  pub output_tokens : ℕ

abbrev pub texts : List String → String
texts [] = ""
texts (s ∷ ss) = s <> texts ss

abbrev pub event : String → AnthropicStreamEvent
event type = record {
  type = some type;
  index = none;
  message_id = none;
  input_tokens = none;
  block_type = none;
  block_id = none;
  block_name = none;
  delta_type = none;
  text = none;
  partial_json = none;
  stop_reason = none;
  output_tokens = none;
}

abbrev pub text_event : ℕ → String → AnthropicStreamEvent
text_event i text = record (event "content_block_delta") {
  index = some i;
  delta_type = some "text_delta";
  text = some text;
}

abbrev pub json_event : ℕ → String → AnthropicStreamEvent
json_event i json = record (event "content_block_delta") {
  index = some i;
  delta_type = some "input_json_delta";
  partial_json = some json;
}

abbrev pub stop_event : ℕ → AnthropicStreamEvent
stop_event i = record (event "content_block_stop") { index = some i }

abbrev pub text_start : ℕ → AnthropicStreamEvent
text_start i = record (event "content_block_start") { index = some i; block_type = some "text" }

abbrev pub call_start : ℕ → String → String → AnthropicStreamEvent
call_start i id name = record (event "content_block_start") {
  index = some i;
  block_type = some "tool_use";
  block_id = some id;
  block_name = some name;
}

abbrev pub text_events : ℕ → List String → List AnthropicStreamEvent
text_events i [] = stop_event i ∷ []
text_events i (text ∷ deltas) = text_event i text ∷ text_events i deltas

abbrev pub json_events : ℕ → List String → List AnthropicStreamEvent
json_events i [] = []
json_events i (json ∷ deltas) = json_event i json ∷ json_events i deltas

-- The input's text as it is streamed: `{}` stands for no delta.
abbrev pub arguments_text : List String → String
arguments_text [] = "{}"
arguments_text (delta ∷ deltas) = texts (delta ∷ deltas)

module _ {J : Type 0} where
  abbrev pub block_events : ℕ → StreamedBlock J → List AnthropicStreamEvent
  block_events i (streamed_text deltas) = text_start i ∷ text_events i deltas
  block_events i (streamed_call id name deltas input) =
      call_start i id name ∷ (json_events i deltas ++ stop_event i ∷ [])

  abbrev pub events_from : ℕ → List (StreamedBlock J) → List AnthropicStreamEvent
  events_from i [] = []
  events_from i (block ∷ blocks) = block_events i block ++ events_from (suc i) blocks

  abbrev pub message_events : StreamedMessage J → List AnthropicStreamEvent
  message_events m =
      record (event "message_start") { message_id = some m.id; input_tokens = some m.input_tokens }
      ∷ (events_from 0 m.blocks
          ++ record (event "message_delta") {
            stop_reason = some m.stop_reason;
            output_tokens = some m.output_tokens;
          }
            ∷ event "message_stop"
            ∷ [])

  abbrev pub whole_block : StreamedBlock J → ResponseBlock J
  whole_block (streamed_text deltas) = text_answer (texts deltas)
  whole_block (streamed_call id name deltas input) = tool_answer id name (some input)

  abbrev pub whole_blocks : List (StreamedBlock J) → List (ResponseBlock J)
  whole_blocks [] = []
  whole_blocks (block ∷ blocks) = whole_block block ∷ whole_blocks blocks

  abbrev pub whole_message : StreamedMessage J → AnthropicResponseBody J
  whole_message m = record {
    id = some m.id;
    content = whole_blocks m.blocks;
    stop_reason = some m.stop_reason;
    input_tokens = some m.input_tokens;
    output_tokens = some m.output_tokens;
  }

pub record AssembledCall : Type 0 where
  pub id : String
  pub name : String
  pub arguments : String

pub record Assembled : Type 0 where
  pub content : String
  pub calls : List AssembledCall
  pub finish_reason : Option String

abbrev pub nothing_yet : Assembled
nothing_yet = record { content = ""; calls = []; finish_reason = none }

-- A call's delta goes to the call of its index, or begins one.
unfoldable pub add_at : ℕ → ChatChunkToolCall → List AssembledCall → List AssembledCall
add_at index t [] =
    record { id = or_else t.id ""; name = or_else t.name ""; arguments = t.arguments } ∷ []
add_at zero t (c ∷ cs) = record c { arguments = c.arguments <> t.arguments } ∷ cs
add_at (suc index) t (c ∷ cs) = c ∷ add_at index t cs

unfoldable pub add_calls : List ChatChunkToolCall → List AssembledCall → List AssembledCall
unfolding add_at
add_calls [] calls = calls
add_calls (t ∷ ts) calls = add_calls ts (add_at t.index t calls)

unfoldable pub add_choices : List ChatChunkChoice → Assembled → Assembled
unfolding add_calls
add_choices [] a = a
add_choices (choice ∷ choices) a = add_choices choices (record {
  content = a.content <> or_else choice.delta.content "";
  calls = add_calls choice.delta.tool_calls a.calls;
  finish_reason = or_option choice.finish_reason a.finish_reason;
})

unfoldable pub assemble : List ChatCompletionChunk → Assembled → Assembled
unfolding add_choices
assemble [] a = a
assemble (chunk ∷ chunks) a = assemble chunks (add_choices chunk.choices a)
