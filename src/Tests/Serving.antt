-- ===== src/Tests/Serving.antt =====
-- A chat request whose primary provider answers an error and whose fallback completes.
use omni_model.Prelude.{ℕ, String, true, false, none, some, List, [], ◌∷◌, ◌≡◌, refl}
use omni_model.Prelude.Codes.{codes}
use omni_model.Prelude.Result.{ok, err}
use omni_model.Facts.{RequestFacts}
use omni_model.RateLimit.Limiter.{allowed, rejected}
use omni_model.RateLimit.Concurrency.{counted, granted}
use omni_model.Server.Response.{
  ChatCompletion, ChatChoice, EmbeddingsResponse, ErrorBody, PublicChatResponseMetadata,
  text_content, redact_chat_completion,
}
use omni_model.Server.Response.Redaction.{SameChoice}
use omni_model.Server.Effects.{
  Usage, acquired, released, charged, stored, called, reported_route, completion_entry,
}
use omni_model.Server.Pipeline.{
  ProxiedRequest, ChatProvider, Route, PipelineDeps, completion, error, execute_chat, ChatExecution,
  chat_with_fallback, enforce_rate_limit, route, look_up, call_chat,
}
use omni_model.Server.Pipeline.Attribution.{IsAttributed, execute_chat-IsAttributed}
use omni_model.Server.Bodies.{
  JsonBody, checked_chat, requested_model, assert_model_allowed_for_client,
}
use omni_model.Server.Handlers.{
  chat_handler, embeddings_handler, respond_chat, acquire_concurrency_slot, release_slot, charge,
  store, json_answer,
}
use omni_model.Server.Handlers.Slots.{Balanced, handlers_slots}
use omni_model.Server.Handlers.Accounting.{IsPaidFor, chat_handler-IsPaidFor}

abbrev tokens : Usage
tokens = record { prompt_tokens = 3; completion_tokens = 4; total_tokens = 7 }

abbrev greeting : ChatChoice
greeting = record {
  index = 0;
  message = record {
    role = "assistant";
    content = text_content "hi";
    tool_calls = none;
    extra = "{}";
  };
  finish_reason = some "stop";
  extra = "";
}

abbrev answer : ChatCompletion
answer = record {
  id = "upstream-1";
  created = 5;
  model = "big-2024";
  choices = greeting ∷ [];
  usage = some tokens;
  extra = "{\"system_fingerprint\":\"fp\"}";
}

abbrev broken : ErrorBody
broken = record { message = "down"; type = "api_error"; param = none; code = none }

abbrev main_provider : ChatProvider ChatCompletion
main_provider = record { id = "main"; chat = λ request. ok (error 502 broken); embeddings = none }

abbrev spare_provider : ChatProvider ChatCompletion
spare_provider = record {
  id = "spare";
  chat = λ request. ok (completion answer);
  embeddings = none;
}

abbrev decision : Route ChatCompletion
decision = record {
  provider = main_provider;
  provider_id = "main";
  provider_type = "openai";
  fallback_provider = some spare_provider;
  fallback_provider_id = some "spare";
  fallback_provider_type = some "openai";
  model = "big";
  route_name = "all";
}

abbrev deps : PipelineDeps ChatCompletion
deps = record {
  check = λ facts. allowed;
  resolve = λ facts. ok decision;
  cache = some (λ key. ok ("key", none));
}

abbrev embeddings_deps : PipelineDeps EmbeddingsResponse
embeddings_deps = record {
  check = λ facts. rejected "daily" 10 60;
  resolve = λ facts.
      err
        (record { status = 404; message = ""; type = ""; code = none; param = none; headers = [] });
  cache = none;
}

abbrev facts : RequestFacts
facts = record {
  model = "gpt";
  input_token_count = 1;
  max_tokens = none;
  temperature = none;
  user_id = some "ann";
  user_claims = "{}";
  user_providers = [];
  client_id = none;
  client_name = none;
  http_method = "POST";
  http_path = "/v1/chat/completions";
  http_ip = none;
  http_headers = [];
}

abbrev body : JsonBody
body = record {
  model = some "gpt";
  messages = some 1;
  has_input = true;
  stream = false;
  rest = "{}";
}

abbrev request : ProxiedRequest
request = record { model = "gpt"; stream = false; rest = "{}" }

abbrev metadata : PublicChatResponseMetadata
metadata = record { id = "chatcmpl-1"; created = 9; model = "gpt" }

abbrev decode : List ℕ → String
decode bytes = "text"

served :
    chat_handler codes decode deps (some (granted (counted false))) none facts metadata body ≡ (
      acquired
          ∷ reported_route "main" "big" "all"
          ∷ called "main" "big"
          ∷ called "spare" "big"
          ∷ reported_route "spare" "big" "all"
          ∷ released
          ∷ charged tokens
          ∷ stored "key" (completion_entry answer (some tokens))
          ∷ [],
      ok (json_answer (redact_chat_completion answer metadata)),
    )
unfolding chat_handler checked_chat requested_model assert_model_allowed_for_client
    acquire_concurrency_slot execute_chat enforce_rate_limit route look_up chat_with_fallback
    call_chat respond_chat release_slot charge store
served = refl

handlers_slots_example :
    Balanced
      (chat_handler codes decode deps (some (granted (counted false))) none facts metadata body).0
    × Balanced
        (embeddings_handler embeddings_deps (some (granted (counted false))) none facts body).0
handlers_slots_example =
    handlers_slots codes decode deps embeddings_deps (some (granted (counted false))) none facts
      metadata body

chat_handler-IsPaidFor_example :
    IsPaidFor
      (chat_handler codes decode deps (some (granted (counted false))) none facts metadata body)
chat_handler-IsPaidFor_example =
    chat_handler-IsPaidFor codes decode deps facts metadata (some (granted (counted false))) none
      body

abbrev execution : ChatExecution ChatCompletion
execution = record { result = completion answer; cache_key = some "key"; cached = false }

execute_chat-IsAttributed_example :
    IsAttributed deps facts request (completion answer) (execute_chat codes deps facts request).0
unfolding execute_chat enforce_rate_limit route look_up chat_with_fallback
execute_chat-IsAttributed_example =
    execute_chat-IsAttributed codes deps facts request execution refl refl

same_greeting : SameChoice greeting greeting
same_greeting = record {
  same_index = refl;
  same_role = refl;
  same_content = refl;
  same_calls = tt;
  same_finish = refl;
}
