-- ===== src/Tests/Providers.antt =====
-- A conversation sent to Anthropic, and one message that comes back, streamed and whole.
use omni_model.Prelude.{
  ℕ, zero, suc, ◌+◌, ◌-◌, ◌*◌, ◌==◌, ◌∷◌, arith, ◌++◌, ◌≡◌, refl, String, true, false, Option, none,
  some, List, [], if◌then◌else◌,
}
use omni_model.Server.Response.{
  ChatToolCall, Content, no_content, text_content, part_content, text_part, image_part,
}
use omni_model.Util.Sse.{
  feed_all, feed, parse_event_block, flush, read_sse_stream, sse_stream_from_chunks,
}
use omni_model.Providers.Wire.{
  RequestMessage, ChatCompletionRequest, ChatChunkToolCall, ChatChunkChoice, ChatCompletionChunk,
  other_choice,
}
use omni_model.Providers.Anthropic.Messages.{
  text_block, base64_image, tool_use, tool_result, user, assistant, translate_messages, system_of,
}
use omni_model.Providers.Anthropic.Messages.Turns.{Turns, translate_messages-Turns}
use omni_model.Providers.Anthropic.Messages.Blocks.{
  opening, sent, turns_of, sent-translate_messages,
}
use omni_model.Providers.Anthropic.Request.{AnthropicRequestBody}
use omni_model.Providers.Anthropic.Completion.{map_stop_reason, to_chat_completion}
use omni_model.Providers.Anthropic.Events.{
  is_text, AnthropicStreamEvent, get_index, set_index, start,
}
use omni_model.Providers.Anthropic.Stream.{step, chunk, flush_empty_tool_args, translate}
use omni_model.Providers.Anthropic.Stream.Message
use omni_model.Providers.Anthropic.Stream.Message.{
  streamed_text, streamed_call, StreamedMessage, message_events, whole_message, nothing_yet,
  assemble,
}
use omni_model.Providers.Anthropic.Stream.Unknown.{known}
use omni_model.Providers.Anthropic.Stream.Answer.{answer_of}
use omni_model.Providers.Anthropic.Stream.Empty.{empty_deltas-empty_arguments}
use omni_model.Providers.Anthropic.Client.{
  JsonLibrary, AnthropicProvider, UpstreamResponse, Fetched, responded, more_than_one, chat,
  events_of,
}
use omni_model.Providers.Anthropic.Client.Same.{
  Received, ReadsChunks, Serves, sent_chunks, chat-same_answer,
}

abbrev said : String → Content → RequestMessage
said role content = record {
  role = role;
  content = content;
  tool_calls = none;
  tool_call_id = none;
}

abbrev weather : ChatToolCall
weather = record {
  id = "t1";
  function_name = "weather";
  function_arguments = "{\"city\":\"Rome\"}";
  extra = "";
}

-- The user speaks twice, once with nothing, and the result of the call follows.
abbrev conversation : List RequestMessage
conversation =
    said "system" (text_content "Be brief.")
    ∷ record (said "assistant" no_content) { tool_calls = some (weather ∷ []) }
    ∷ record (said "tool" (text_content "sunny")) { tool_call_id = some "t1" }
    ∷ said "user" (text_content "")
    ∷ said "user" (
        part_content
          (text_part "And there?" "" ∷ image_part "data:image/png;base64,AA" none "" ∷ []))
    ∷ []

-- The values of JSON are their texts here.
abbrev parse : String → Option String
parse text = some text

conversation_sent :
    translate_messages parse "{}" conversation
    ≡ record { role = user; content = text_block "." ∷ [] }
      ∷ record { role = assistant; content = tool_use "t1" "weather" "{\"city\":\"Rome\"}" ∷ [] }
      ∷ record {
        role = user;
        content =
            tool_result "t1" "sunny" ∷ text_block "And there?" ∷ base64_image "image/png" "AA" ∷ [];
      }
      ∷ []
unfolding translate_messages
conversation_sent = refl

conversation_system : system_of conversation ≡ some "Be brief."
unfolding system_of
conversation_system = refl

translate_messages-Turns_example : Turns user (translate_messages parse "{}" conversation)
translate_messages-Turns_example = translate_messages-Turns parse "{}" conversation

sent-translate_messages_example :
    sent (translate_messages parse "{}" conversation)
    ≡ opening (turns_of parse "{}" conversation) ++ turns_of parse "{}" conversation
sent-translate_messages_example = sent-translate_messages parse "{}" conversation

abbrev message : StreamedMessage String
message = record {
  id = "m1";
  blocks =
      streamed_text ("Let me " ∷ "look." ∷ [])
      ∷ streamed_call "t1" "weather" ("{\"city\":" ∷ "\"Rome\"}" ∷ []) "{\"city\":\"Rome\"}"
      ∷ streamed_call "t2" "now" [] "{}"
      ∷ [];
  stop_reason = "tool_use";
  input_tokens = 12;
  output_tokens = 7;
}

-- The events come with a ping after the first.
abbrev with_ping : List AnthropicStreamEvent → List AnthropicStreamEvent
with_ping [] = []
with_ping (first ∷ later) = first ∷ Message.event "ping" ∷ later

abbrev events_sent : List AnthropicStreamEvent
events_sent = with_ping (message_events message)

abbrev nth : {A : Type 0} → List A → ℕ → Option A
nth [] n = none
nth (x ∷ xs) zero = some x
nth (x ∷ xs) (suc n) = nth xs n

-- The number of an event or of a chunk stands for its JSON.
abbrev read_number : {A : Type 0} → List A → List ℕ → Option A
read_number xs [] = none
read_number xs (n ∷ []) = nth xs (n - 48)
read_number xs (n ∷ k ∷ text) = none

abbrev numbers_from : {A : Type 0} → ℕ → List A → List (List ℕ)
numbers_from n [] = []
numbers_from n (x ∷ xs) = (n ∷ []) ∷ numbers_from (suc n) xs

abbrev request : ChatCompletionRequest String
request = record {
  model = "claude";
  messages = conversation;
  stream = false;
  include_usage = true;
  max_tokens = none;
  max_completion_tokens = none;
  temperature = none;
  top_p = none;
  n = some 1;
  stop = none;
  tools = none;
  tool_choice = other_choice;
  user = none;
}

abbrev number_of_text : String → ℕ
number_of_text text = if text == "" then 0 else if text == "look." then 2 else 1

abbrev number_of_arguments : ℕ → String → ℕ
number_of_arguments index text =
    if text == ""
    then 3 + index * 3
    else if text == "{}"
    then 7
    else if text == "\"Rome\"}"
    then 5
    else 4

abbrev number_of_delta : Option String → List ChatChunkToolCall → ℕ
number_of_delta (some text) calls = number_of_text text
number_of_delta none [] = 8
number_of_delta none (call ∷ calls) = number_of_arguments call.index call.arguments

abbrev chunk_number : List ChatChunkChoice → ℕ
chunk_number [] = 9
chunk_number (choice ∷ choices) = number_of_delta choice.delta.content choice.delta.tool_calls

abbrev json : JsonLibrary String
json = record {
  parse = parse;
  stringify = λ text. text;
  empty_object = "{}";
  object_schema = "{\"type\":\"object\"}";
  parse_event = read_number events_sent;
  parse_body = λ text. some (whole_message message);
  parse_error = λ text. none;
  first_500 = λ text. text;
  print_chunk = λ chunk. (48 + chunk_number chunk.choices) ∷ [];
}

abbrev parse_chunk : List ℕ → Option ChatCompletionChunk
parse_chunk = read_number (sent_chunks message request 5000)

reads_chunks : ReadsChunks json parse_chunk (sent_chunks message request 5000)
unfolding translate step chunk flush_empty_tool_args get_index set_index map_stop_reason
reads_chunks = record {
  back = (refl, (refl, (refl, (refl, (refl, (refl, (refl, (refl, (refl, (refl, tt))))))))));
  done = refl;
  lines = ground arith;
}

abbrev streaming : UpstreamResponse
streaming = record {
  status = 200;
  text = none;
  body = some (sse_stream_from_chunks (numbers_from 48 events_sent), []);
}

abbrev whole : UpstreamResponse
whole = record { status = 200; text = some "{}"; body = none }

abbrev upstream : AnthropicRequestBody String → Fetched
upstream body = responded (if body.stream then streaming else whole)

serves : Serves json upstream message
unfolding known is_text events_of read_sse_stream sse_stream_from_chunks feed_all feed
    parse_event_block flush
serves = record {
  streaming = streaming;
  whole = whole;
  responds = λ body. refl;
  streaming_ok = refl;
  whole_ok = refl;
  texts = sse_stream_from_chunks (numbers_from 48 events_sent);
  last = [];
  streamed = refl;
  events = refl;
  text = "{}";
  sent = refl;
  parsed = refl;
}

abbrev provider : AnthropicProvider
provider = record { id = "anthropic-main"; max_tokens_default = 4096 }

chat-same_answer_example :
    let answer =
      to_chat_completion json.stringify json.empty_object (whole_message message) "claude" 5000 in
    Received parse_chunk
      (chat json provider upstream (record request { stream = true }) 5000)
      (answer_of answer.choices)
      answer.usage
    × Received parse_chunk
        (chat json provider upstream (record request { stream = false }) 5000)
        (answer_of answer.choices)
        answer.usage
unfolding more_than_one
chat-same_answer_example =
    chat-same_answer json parse_chunk provider upstream message request 5000 serves reads_chunks
      (refl, (refl, tt)) refl

-- The call's input is streamed as the empty text alone.
abbrev empty_input : StreamedMessage String
empty_input = record message { blocks = streamed_call "t2" "now" ("" ∷ []) "{}" ∷ [] }

empty_deltas-empty_arguments_example :
    (assemble (translate 5 "claude" true (message_events empty_input) start).0 nothing_yet).calls
    ≡ record { id = "t2"; name = "now"; arguments = "" } ∷ []
empty_deltas-empty_arguments_example =
    empty_deltas-empty_arguments 5 "claude" true empty_input "t2" "now" [] "{}" refl tt
