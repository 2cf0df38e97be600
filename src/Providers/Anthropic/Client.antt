-- ===== src/Providers/Anthropic/Client.antt =====
-- `chat` and `streamResult` of `AnthropicProvider` in
-- packages/core/src/providers/anthropic.ts. A client that hangs up, and a stream of the upstream that
-- breaks off, are left out.
pub mod Same
use omni_model.Prelude.{
  ℕ, ◌/◌, String, Bool, true, false, Option, none, some, List, [], ◌∷◌, ◌≡◌, leb, ltb, ◌&&◌,
  if◌then◌else◌, or_else,
}
use omni_model.Prelude.Text.{◌<>◌}
use omni_model.Server.Effects.{Usage}
use omni_model.Server.Response.{ErrorBody, ChatCompletion}
use omni_model.Server.Pipeline.{ChatResult, completion, stream, error}
use omni_model.Util.Sse.{SseMessage, read_sse_stream, sse_stream_from_chunks}
use omni_model.Providers.Wire.{ChatCompletionRequest, ChatCompletionChunk}
use omni_model.Providers.Shared.{ErrorPayload, open_ai_error_body, upstream_error_to_result}
use omni_model.Providers.Anthropic.Request.{AnthropicRequestBody, to_anthropic_request}
use omni_model.Providers.Anthropic.Completion.{AnthropicResponseBody, to_chat_completion}
use omni_model.Providers.Anthropic.Events.{AnthropicStreamEvent, start}
use omni_model.Providers.Anthropic.Stream.{translate, settled_usage}

-- What comes back: the text of the body if it arrived whole, and the body as a stream if there is one,
-- by the texts of its chunks and what the decoder gives at its end.
pub record UpstreamResponse : Type 0 where
  pub status : ℕ
  pub text : Option String
  pub body : Option (List (List ℕ) × List ℕ)

pub data Fetched : Type 0 where
  unreachable : String → Fetched
  responded : UpstreamResponse → Fetched

-- `response.ok`
abbrev pub is_ok : ℕ → Bool
is_ok status = leb 200 status && leb status 299

unfoldable pub more_than_one : Option ℕ → Bool
more_than_one none = false
more_than_one (some n) = ltb 1 n

unfoldable pub upstream_failure : String → String → ChatResult ChatCompletion
unfolding open_ai_error_body
upstream_failure id what = error 502 (
    open_ai_error_body ("[provider " <> id <> "] upstream " <> what) "api_error"
      (some "upstream_error"))

as_error : ℕ × ErrorBody → ChatResult ChatCompletion
as_error (status, body) = error status body

-- The events of the messages: a message without data, or whose data is no object, is passed over.
event_if_some : Option AnthropicStreamEvent → List AnthropicStreamEvent → List AnthropicStreamEvent
event_if_some none events = events
event_if_some (some event) events = event ∷ events

module _ (parse_event : List ℕ → Option AnthropicStreamEvent) where
  parsed : List ℕ → Option AnthropicStreamEvent
  parsed [] = none
  parsed (c ∷ text) = parse_event (c ∷ text)

  unfoldable pub events_of : List SseMessage → List AnthropicStreamEvent
  unfolding parsed event_if_some
  events_of [] = []
  events_of (message ∷ messages) = event_if_some (parsed message.data_text) (events_of messages)

printed : (ChatCompletionChunk → List ℕ) → List ChatCompletionChunk → List (List ℕ)
printed print [] = []
printed print (chunk ∷ chunks) = print chunk ∷ printed print chunks

-- The platform's JSON: of values, of a message's data, of a whole body, of an error's body, and of a
-- chunk that is printed.
pub record JsonLibrary (J : Type 0) : Type 0 where
  pub parse : String → Option J
  pub stringify : J → String
  pub empty_object : J
  pub object_schema : J
  pub parse_event : List ℕ → Option AnthropicStreamEvent
  pub parse_body : String → Option (AnthropicResponseBody J)
  pub parse_error : String → Option ErrorPayload
  pub first_500 : String → String
  pub print_chunk : ChatCompletionChunk → List ℕ

pub record AnthropicProvider : Type 0 where
  pub id : String
  pub max_tokens_default : ℕ

module _ {J : Type 0} (json : JsonLibrary J) where
  unfoldable pub stream_result :
      List (List ℕ) × List ℕ → ChatCompletionRequest J → ℕ → ChatResult ChatCompletion
  unfolding events_of translate settled_usage sse_stream_from_chunks read_sse_stream printed
  stream_result (texts, last) request now_ms =
      let (chunks, s) =
        translate (now_ms / 1000) request.model request.include_usage
          (events_of json.parse_event (read_sse_stream texts last)) start in
      stream (record {
        chunks = sse_stream_from_chunks (printed json.print_chunk chunks);
        broke = false;
        usage = some (settled_usage s);
      })

  module _ (provider : AnthropicProvider) where
    stream_body :
        Option (List (List ℕ) × List ℕ) → ChatCompletionRequest J → ℕ → ChatResult ChatCompletion
    unfolding stream_result upstream_failure
    stream_body none request now_ms =
        upstream_failure provider.id "returned no body for a streaming request"
    stream_body (some body) request now_ms = stream_result body request now_ms

    whole_body :
        Option (AnthropicResponseBody J) → ChatCompletionRequest J → ℕ → ChatResult ChatCompletion
    unfolding to_chat_completion upstream_failure
    whole_body none request now_ms = upstream_failure provider.id "returned an unparsable response"
    whole_body (some body) request now_ms =
        completion (to_chat_completion json.stringify json.empty_object body request.model now_ms)

    parsed_body : Option String → Option (AnthropicResponseBody J)
    parsed_body none = none
    parsed_body (some text) = json.parse_body text

    answered : UpstreamResponse → ChatCompletionRequest J → ℕ → ChatResult ChatCompletion
    unfolding as_error upstream_error_to_result stream_body whole_body parsed_body
    answered response request now_ms =
        if is_ok response.status
        then if request.stream
          then stream_body response.body request now_ms
          else whole_body (parsed_body response.text) request now_ms
        else as_error (
            upstream_error_to_result json.parse_error json.first_500 provider.id response.status
              (or_else response.text ""))

    fetched : Fetched → ChatCompletionRequest J → ℕ → ChatResult ChatCompletion
    unfolding answered upstream_failure
    fetched (unreachable message) request now_ms =
        upstream_failure provider.id ("request failed: " <> message)
    fetched (responded response) request now_ms = answered response request now_ms

    -- The upstream answers a function of the body that is sent.
    unfoldable pub chat :
        (AnthropicRequestBody J → Fetched) → ChatCompletionRequest J → ℕ → ChatResult ChatCompletion
    unfolding more_than_one fetched to_anthropic_request open_ai_error_body
    chat upstream request now_ms =
        if more_than_one request.n
        then error 400 (
            open_ai_error_body "anthropic provider does not support n>1" "invalid_request_error"
              none)
        else fetched
            (upstream (
              to_anthropic_request json.parse json.empty_object json.object_schema request
                provider.max_tokens_default))
            request now_ms
