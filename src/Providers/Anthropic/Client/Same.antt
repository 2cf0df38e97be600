-- ===== src/Providers/Anthropic/Client/Same.antt =====
-- The answer of packages/core/src/providers/anthropic.ts to a streaming request and to a whole one.
use omni_model.Prelude.{
  ℕ, ◌/◌, ◌≡◌, refl, ap, String, true, false, Option, none, some, List, [], ◌∷◌, ◌++◌, map, All,
  if◌then◌else◌,
}
use omni_model.Prelude.Codes.{codes, concat}
use omni_model.Server.Effects.{Usage}
use omni_model.Server.Response.{ChatCompletion}
use omni_model.Server.Pipeline.{ChatResult, completion, stream, error}
use omni_model.Util.Sse.{SseMessage, read_sse_stream}
use omni_model.Util.Sse.Boundary.{IsLine}
use omni_model.Util.Sse.RoundTrip.{AreLines, data_message, read-sse_stream_from_chunks}
use omni_model.Providers.Wire.{ChatCompletionRequest, ChatCompletionChunk}
use omni_model.Providers.Anthropic.Request.{AnthropicRequestBody, to_anthropic_request}
use omni_model.Providers.Anthropic.Completion.{to_chat_completion}
use omni_model.Providers.Anthropic.Events.{start}
use omni_model.Providers.Anthropic.Stream.{translate}
use omni_model.Providers.Anthropic.Stream.Message.{
  StreamedMessage, message_events, whole_message, Assembled, nothing_yet, assemble,
}
use omni_model.Providers.Anthropic.Stream.Unknown.{known, translate-known}
use omni_model.Providers.Anthropic.Stream.Answer.{answer_of, InputsMatch, stream-eq-whole}
use omni_model.Providers.Anthropic.Client.{
  more_than_one, stream_result, JsonLibrary, AnthropicProvider, UpstreamResponse, Fetched,
  responded, is_ok, events_of, printed, chat,
}

-- What a client makes of a stream that it reads: its events that are chunks, put together.
module _ (parse_chunk : List ℕ → Option ChatCompletionChunk) where
  abbrev if_chunk : Option ChatCompletionChunk → List ChatCompletionChunk → List ChatCompletionChunk
  if_chunk none chunks = chunks
  if_chunk (some chunk) chunks = chunk ∷ chunks

  abbrev chunks_of : List SseMessage → List ChatCompletionChunk
  chunks_of [] = []
  chunks_of (message ∷ messages) = if_chunk (parse_chunk message.data_text) (chunks_of messages)

  -- The answer that a client has of a result, a stream's text being cut into chunks by the network.
  abbrev pub Received : ChatResult ChatCompletion → Assembled → Option Usage → Type 0
  Received (completion c) a usage = (answer_of c.choices ≡ a) × (c.usage ≡ usage)
  Received (stream s) a usage =
      ((texts : List (List ℕ)) (last : List ℕ)
        → concat texts ++ last ≡ concat s.chunks
        → assemble (chunks_of (read_sse_stream texts last)) nothing_yet ≡ a)
      × (s.usage ≡ some usage)
  Received (error status body) a usage = ⊥

  chunks_of-printed :
      (print : ChatCompletionChunk → List ℕ) (chunks : List ChatCompletionChunk)
      → All (λ chunk. parse_chunk (print chunk) ≡ some chunk) chunks
      → parse_chunk (codes "[DONE]") ≡ none
      → chunks_of (map data_message (printed print chunks ++ codes "[DONE]" ∷ [])) ≡ chunks
  unfolding printed
  chunks_of-printed print [] back done = rw done
  chunks_of-printed print (chunk ∷ chunks) (back, later) done =
      rw back (rw (chunks_of-printed print chunks later done))

-- The JSON of these chunks as a client relies on it.
pub record ReadsChunks {J : Type 0} (json : JsonLibrary J)
    (parse_chunk : List ℕ → Option ChatCompletionChunk) (chunks : List ChatCompletionChunk)
    : Type 0 where
  pub back : All (λ chunk. parse_chunk (json.print_chunk chunk) ≡ some chunk) chunks
  pub done : parse_chunk (codes "[DONE]") ≡ none
  pub lines : All (λ chunk. IsLine (json.print_chunk chunk)) chunks

-- An upstream that answers with the message, streamed if it is asked to and whole if not.
pub record Serves {J : Type 0} (json : JsonLibrary J) (upstream : AnthropicRequestBody J → Fetched)
    (m : StreamedMessage J) : Type 0 where
  pub streaming : UpstreamResponse
  pub whole : UpstreamResponse
  pub responds :
      (body : AnthropicRequestBody J)
      → upstream body ≡ responded (if body.stream then streaming else whole)
  pub streaming_ok : is_ok streaming.status ≡ true
  pub whole_ok : is_ok whole.status ≡ true
  pub texts : List (List ℕ)
  pub last : List ℕ
  pub streamed : streaming.body ≡ some (texts, last)
  pub events : known (events_of json.parse_event (read_sse_stream texts last)) ≡ message_events m
  pub text : String
  pub sent : whole.text ≡ some text
  pub parsed : json.parse_body text ≡ some (whole_message m)

AreLines-printed :
    (print : ChatCompletionChunk → List ℕ) (chunks : List ChatCompletionChunk)
    → All (λ chunk. IsLine (print chunk)) chunks
    → AreLines (printed print chunks)
unfolding printed
AreLines-printed print [] lines = tt
AreLines-printed print (chunk ∷ chunks) (line, lines) = (line, AreLines-printed print chunks lines)

-- The chunks that a message is translated to.
abbrev pub sent_chunks :
    {J : Type 0} → StreamedMessage J → ChatCompletionRequest J → ℕ → List ChatCompletionChunk
sent_chunks m request now_ms =
    (translate (now_ms / 1000) request.model request.include_usage (message_events m) start).0

module _ {J : Type 0} (json : JsonLibrary J)
    (parse_chunk : List ℕ → Option ChatCompletionChunk) where
  stream_result-Received :
      (m : StreamedMessage J) (texts : List (List ℕ)) (last : List ℕ)
      (request : ChatCompletionRequest J) (now_ms : ℕ)
      → ReadsChunks json parse_chunk (sent_chunks m request now_ms)
      → InputsMatch json.stringify json.empty_object m.blocks
      → known (events_of json.parse_event (read_sse_stream texts last)) ≡ message_events m
      → let answer =
          to_chat_completion json.stringify json.empty_object
            (whole_message m)
            request.model
            now_ms in
        Received parse_chunk
          (stream_result json (texts, last) request now_ms)
          (answer_of answer.choices)
          answer.usage
  unfolding stream_result
  stream_result-Received m texts last request now_ms reads match events =
      let created = now_ms / 1000 in
      let chunks = sent_chunks m request now_ms in
      let (assembled, settled) =
        stream-eq-whole json.stringify json.empty_object m created request.model
          request.include_usage now_ms match in
      rw
        (translate-known created request.model request.include_usage
          (events_of json.parse_event (read_sse_stream texts last)) start)
        (rw events (
          λ cut cut_last same.
              rw
                (read-sse_stream_from_chunks (printed json.print_chunk chunks) cut cut_last
                  (AreLines-printed json.print_chunk chunks reads.lines) same)
                (rw (chunks_of-printed parse_chunk json.print_chunk chunks reads.back reads.done)
                  assembled),
          ap (λ (u : Option Usage). some u) settled,
        ))

  -- For an upstream that answers with one message, as events in their order when it is asked to stream,
  -- with others of unknown types between them, and whole when it is not, and whose calls' inputs are
  -- streamed as they are printed: a request for one choice is answered with the same content, calls,
  -- reason to finish and usage whether it asks for a stream or not, however the network cuts the stream
  -- that the client reads, if the client's parser reads back the chunks that are printed, each on one
  -- line, and takes the end mark for no chunk.
  pub chat-same_answer :
      (provider : AnthropicProvider) (upstream : AnthropicRequestBody J → Fetched)
      (m : StreamedMessage J) (request : ChatCompletionRequest J) (now_ms : ℕ)
      → Serves json upstream m
      → ReadsChunks json parse_chunk (sent_chunks m request now_ms)
      → InputsMatch json.stringify json.empty_object m.blocks
      → more_than_one request.n ≡ false
      → let answer =
          to_chat_completion json.stringify json.empty_object
            (whole_message m)
            request.model
            now_ms in
        Received parse_chunk
          (chat json provider upstream (record request { stream = true }) now_ms)
          (answer_of answer.choices)
          answer.usage
        × Received parse_chunk
            (chat json provider upstream (record request { stream = false }) now_ms)
            (answer_of answer.choices)
            answer.usage
  unfolding chat to_anthropic_request
  chat-same_answer provider upstream m request now_ms serves reads match one = (
    rw one (
        rw (serves.responds _) (
          rw serves.streaming_ok (
            rw serves.streamed (
              stream_result-Received m serves.texts serves.last (record request { stream = true })
                now_ms reads match serves.events)))),
    rw one (
        rw (serves.responds _)
          (rw serves.whole_ok (rw serves.sent (rw serves.parsed (refl, refl))))),
  )
