-- ===== src/Providers/Anthropic/Request.antt =====
-- `translateTools` and `toAnthropicRequest` of packages/core/src/providers/anthropic.ts.
use omni_model.Prelude.{
  ℕ, String, Bool, Option, none, some, List, [], ◌∷◌, map, or_else, or_option, if◌then◌else◌,
}
use omni_model.Prelude.Int.{ℤ, pos, ltb_ℤ}
use omni_model.Providers.Wire.{
  ChatTool, ToolChoice, no_tool, any_tool, required_tool, function_tool, other_choice, Stop,
  one_stop, stops, ChatCompletionRequest,
}
use omni_model.Providers.Anthropic.Messages.{AnthropicMessage, translate_messages, system_of}

pub record AnthropicTool (J : Type 0) : Type 0 where
  pub name : String
  pub description : Option String
  pub input_schema : J

pub data AnthropicToolChoice : Type 0 where
  auto any none_of_them : AnthropicToolChoice
  tool : String → AnthropicToolChoice

pub record AnthropicRequestBody (J : Type 0) : Type 0 where
  pub model : String
  pub max_tokens : ℕ
  pub messages : List (AnthropicMessage J)
  pub tools : Option (List (AnthropicTool J))
  pub tool_choice : Option AnthropicToolChoice
  pub system : Option String
  pub temperature : Option ℤ
  pub top_p : Option ℤ
  pub stop_sequences : Option (List String)
  pub user_id : Option String
  pub stream : Bool

unfoldable pub translate_choice : ToolChoice → Option AnthropicToolChoice
translate_choice no_tool = some none_of_them
translate_choice any_tool = some auto
translate_choice required_tool = some any
translate_choice (function_tool name) = some (tool name)
translate_choice other_choice = none

-- A choice without tools is dropped.
unfoldable pub choice_beside {ℓ} : {A : Type ℓ} → Option A → ToolChoice → Option AnthropicToolChoice
unfolding translate_choice
choice_beside none choice = none
choice_beside (some tools) choice = translate_choice choice

-- Between 0 and 1, in thousandths.
unfoldable pub clamp_temperature : ℤ → ℤ
clamp_temperature t = if ltb_ℤ t (pos 0) then pos 0 else if ltb_ℤ (pos 1000) t then pos 1000 else t

stop_sequences_of : Stop → List String
stop_sequences_of (one_stop text) = text ∷ []
stop_sequences_of (stops texts) = texts

map_option : {A B : Type 0} → (A → B) → Option A → Option B
map_option f none = none
map_option f (some a) = some (f a)

-- JSON's parser, `{}` and `{ "type": "object" }` are parameters.
module _ {J : Type 0} (parse : String → Option J) (empty_object object_schema : J) where
  unfoldable pub translate_tool : ChatTool J → AnthropicTool J
  translate_tool t = record {
    name = t.name;
    description = t.description;
    input_schema = or_else t.parameters object_schema;
  }

  unfoldable pub to_anthropic_request : ChatCompletionRequest J → ℕ → AnthropicRequestBody J
  unfolding translate_tool choice_beside clamp_temperature stop_sequences_of map_option
  to_anthropic_request request max_tokens_default = record {
    model = request.model;
    max_tokens =
        or_else (or_option request.max_completion_tokens request.max_tokens) max_tokens_default;
    messages = translate_messages parse empty_object request.messages;
    tools = map_option (map translate_tool) request.tools;
    tool_choice = choice_beside request.tools request.tool_choice;
    system = system_of request.messages;
    temperature = map_option clamp_temperature request.temperature;
    top_p = request.top_p;
    stop_sequences = map_option stop_sequences_of request.stop;
    user_id = request.user;
    stream = request.stream;
  }
