-- ===== src/Providers/Anthropic/Completion.antt =====
-- `toChatCompletion` of packages/core/src/providers/anthropic.ts: a whole answer.
use omni_model.Prelude.{
  ℕ, ◌+◌, ◌/◌, String, Option, none, some, List, [], ◌∷◌, ◌==◌, if◌then◌else◌, or_else,
}
use omni_model.Prelude.Text.{join}
use omni_model.Server.Effects.{Usage}
use omni_model.Server.Response.{ChatToolCall, Content, no_content, text_content, ChatCompletion}

pub data ResponseBlock (J : Type 0) : Type 0 where
  text_answer : String → ResponseBlock J
  -- an id, a name, and the input if there is one
  tool_answer : String → String → Option J → ResponseBlock J
  other_answer : ResponseBlock J

pub record AnthropicResponseBody (J : Type 0) : Type 0 where
  pub id : Option String
  pub content : List (ResponseBlock J)
  pub stop_reason : Option String
  pub input_tokens : Option ℕ
  pub output_tokens : Option ℕ

stop_reason_of : String → String
stop_reason_of reason =
    if reason == "max_tokens"
    then "length"
    else if reason == "tool_use"
    then "tool_calls"
    else if reason == "refusal"
    then "content_filter"
    else "stop"

unfoldable pub map_stop_reason : Option String → String
unfolding stop_reason_of
map_stop_reason none = "stop"
map_stop_reason (some reason) = stop_reason_of reason

unfoldable pub usage_of_tokens : ℕ → ℕ → Usage
usage_of_tokens input output = record {
  prompt_tokens = input;
  completion_tokens = output;
  total_tokens = input + output;
}

module _ {J : Type 0} where
  unfoldable pub answer_texts : List (ResponseBlock J) → List String
  answer_texts [] = []
  answer_texts (text_answer text ∷ blocks) = text ∷ answer_texts blocks
  answer_texts (tool_answer id name input ∷ blocks) = answer_texts blocks
  answer_texts (other_answer ∷ blocks) = answer_texts blocks

  -- The printer of JSON and `{}` are parameters.
  module _ (stringify : J → String) (empty_object : J) where
    unfoldable pub answer_calls : List (ResponseBlock J) → List ChatToolCall
    answer_calls [] = []
    answer_calls (tool_answer id name input ∷ blocks) =
        record {
          id = id;
          function_name = name;
          function_arguments = stringify (or_else input empty_object);
          extra = "";
        }
        ∷ answer_calls blocks
    answer_calls (text_answer text ∷ blocks) = answer_calls blocks
    answer_calls (other_answer ∷ blocks) = answer_calls blocks

    unfoldable pub joined_texts : List String → Content
    joined_texts [] = no_content
    joined_texts (text ∷ texts) = text_content (join "" (text ∷ texts))

    unfoldable pub calls_if_any : List ChatToolCall → Option (List ChatToolCall)
    calls_if_any [] = none
    calls_if_any (call ∷ calls) = some (call ∷ calls)

    unfoldable pub to_chat_completion : AnthropicResponseBody J → String → ℕ → ChatCompletion
    unfolding answer_texts answer_calls joined_texts calls_if_any map_stop_reason usage_of_tokens
    to_chat_completion body model now_ms = record {
      id = or_else body.id "chatcmpl-unknown";
      created = now_ms / 1000;
      model = model;
      choices =
          record {
            index = 0;
            message = record {
              role = "assistant";
              content = joined_texts (answer_texts body.content);
              tool_calls = calls_if_any (answer_calls body.content);
              extra = "";
            };
            finish_reason = some (map_stop_reason body.stop_reason);
            extra = "";
          }
          ∷ [];
      usage = some (usage_of_tokens (or_else body.input_tokens 0) (or_else body.output_tokens 0));
      extra = "";
    }
