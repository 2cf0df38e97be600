-- ===== src/Providers/Anthropic/Stream.antt =====
-- The stream of packages/core/src/providers/anthropic.ts: Anthropic's events as chunks of OpenAI's API.
pub mod Message
pub mod Unknown
pub mod Steps
pub mod Runs
pub mod Calls
pub mod CallEnds
pub mod Whole
pub mod Answer
pub mod Empty
use omni_model.Prelude.{
  ℕ, suc, ◌+◌, String, Bool, true, false, Option, none, some, List, [], ◌∷◌, ◌++◌, ◌==◌, ◌&&◌, ◌||◌,
  not, eqb, any, is_some, if◌then◌else◌, or_else,
}
use omni_model.Prelude.Text.{◌<>◌}
use omni_model.Server.Effects.{Usage}
use omni_model.Providers.Wire.{
  ChatChunkToolCall, ChatChunkDelta, ChatChunkChoice, ChatCompletionChunk,
}
use omni_model.Providers.Anthropic.Events.{
  AnthropicStreamEvent, StreamState, start, get_index, set_index, has_block, is_text, no_delta,
  call_delta, selected,
}
use omni_model.Providers.Anthropic.Completion.{map_stop_reason, usage_of_tokens}

module _ (created : ℕ) (model : String) where
  unfoldable pub chunk : StreamState → ChatChunkDelta → Option String → ChatCompletionChunk
  chunk s delta finish_reason = record {
    id = s.chunk_id;
    created = created;
    model = model;
    choices = record { index = 0; delta = delta; finish_reason = finish_reason } ∷ [];
    usage = none;
  }

  -- `flushEmptyToolArgs` over the calls that are left.
  unfoldable pub flush_empty_tool_args :
      Option ℕ → List (ℕ × ℕ) → StreamState → List ChatCompletionChunk × StreamState
  unfolding chunk selected
  flush_empty_tool_args only [] s = ([], s)
  flush_empty_tool_args only ((block, index) ∷ calls) s =
      let skipped = flush_empty_tool_args only calls s in
      let (chunks, s') =
        flush_empty_tool_args only calls
          (record s { tool_blocks_flushed = block ∷ s.tool_blocks_flushed }) in
      if not (selected only block)
        || has_block block s.tool_blocks_with_args
        || has_block block s.tool_blocks_flushed
      then skipped
      else (chunk s (call_delta index none none "{}") none ∷ chunks, s')

  -- What an event gives: its chunks, the state, and whether the stream ends with it.
  abbrev StepResult : Type 0
  StepResult = List ChatCompletionChunk × StreamState × Bool

  message_start : AnthropicStreamEvent → StreamState → StepResult
  unfolding chunk
  message_start event s =
      let s' = record s {
        chunk_id = elim event.message_id [ none ↦ s.chunk_id | some id ↦ "chatcmpl-" <> id ];
        input_tokens = or_else event.input_tokens s.input_tokens;
        saw_usage = s.saw_usage || is_some event.input_tokens;
      } in
      (
        chunk s' (record no_delta { role = some "assistant"; content = some "" }) none ∷ [],
        s',
        false,
      )

  mapped : Option ℕ → ℕ → List (ℕ × ℕ) → List (ℕ × ℕ)
  unfolding set_index
  mapped none index m = m
  mapped (some block) index m = set_index block index m

  content_block_start : AnthropicStreamEvent → StreamState → StepResult
  unfolding chunk mapped is_text
  content_block_start event s =
      if is_text event.block_type "tool_use"
      then (
        chunk s
              (call_delta s.next_tool_index (some (or_else event.block_id ""))
                (some (or_else event.block_name "")) "")
              none
            ∷ [],
        record s {
          tool_index_by_block = mapped event.index s.next_tool_index s.tool_index_by_block;
          next_tool_index = suc s.next_tool_index;
        },
        false,
      )
      else ([], s, false)

  -- The delta of a block, by the index of its call.
  delta_of_call : ℕ → String → Option ℕ → StreamState → StepResult
  unfolding chunk
  delta_of_call block json none s = ([], s, false)
  delta_of_call block json (some index) s = (
    chunk s (call_delta index none none json) none ∷ [],
    record s { tool_blocks_with_args = block ∷ s.tool_blocks_with_args },
    false,
  )

  arguments_delta : Option ℕ → Option String → StreamState → StepResult
  unfolding delta_of_call
  arguments_delta none json s = ([], s, false)
  arguments_delta (some block) none s = ([], s, false)
  arguments_delta (some block) (some json) s =
      delta_of_call block json (get_index block s.tool_index_by_block) s

  text_delta : Option String → StreamState → Option StepResult
  unfolding chunk
  text_delta none s = none
  text_delta (some text) s =
      some (chunk s (record no_delta { content = some text }) none ∷ [], s, false)

  content_block_delta : AnthropicStreamEvent → StreamState → StepResult
  unfolding text_delta arguments_delta is_text
  content_block_delta event s =
      if is_text event.delta_type "text_delta"
      then or_else (text_delta event.text s) ([], s, false)
      else if is_text event.delta_type "input_json_delta"
      then arguments_delta event.index event.partial_json s
      else ([], s, false)

  stop_chunks : Option String → StreamState → List ChatCompletionChunk
  unfolding chunk map_stop_reason
  stop_chunks none s = []
  stop_chunks (some reason) s = chunk s no_delta (some (map_stop_reason (some reason))) ∷ []

  message_delta : AnthropicStreamEvent → StreamState → StepResult
  unfolding stop_chunks
  message_delta event s = (
    stop_chunks event.stop_reason s,
    record s {
      output_tokens = or_else event.output_tokens s.output_tokens;
      saw_usage = s.saw_usage || is_some event.output_tokens;
    },
    false,
  )

  content_block_stop : AnthropicStreamEvent → StreamState → StepResult
  unfolding flush_empty_tool_args
  content_block_stop event s = elim event.index [
    | none ↦ ([], s, false)
    | some block ↦
        let (chunks, s') = flush_empty_tool_args (some block) s.tool_index_by_block s in
        (chunks, s', false)
  ]

  usage_chunks : Bool → StreamState → List ChatCompletionChunk
  unfolding usage_of_tokens
  usage_chunks false s = []
  usage_chunks true s =
      record {
        id = s.chunk_id;
        created = created;
        model = model;
        choices = [];
        usage = some (usage_of_tokens s.input_tokens s.output_tokens);
      }
      ∷ []

  message_stop : Bool → StreamState → StepResult
  unfolding flush_empty_tool_args usage_chunks
  message_stop include_usage s =
      let (chunks, s') = flush_empty_tool_args none s.tool_index_by_block s in
      (chunks ++ usage_chunks include_usage s', s', true)

  stream_error : StreamState → StepResult
  unfolding flush_empty_tool_args chunk
  stream_error s =
      let (chunks, s') = flush_empty_tool_args none s.tool_index_by_block s in
      (chunks ++ chunk s' no_delta (some "stop") ∷ [], s', true)

  -- The `switch` of `translate`; the warning that an error logs is left out.
  unfoldable pub step : Bool → AnthropicStreamEvent → StreamState → StepResult
  unfolding message_start content_block_start content_block_delta message_delta content_block_stop
      message_stop stream_error is_text
  step include_usage event s =
      if is_text event.type "message_start"
      then message_start event s
      else if is_text event.type "content_block_start"
      then content_block_start event s
      else if is_text event.type "content_block_delta"
      then content_block_delta event s
      else if is_text event.type "message_delta"
      then message_delta event s
      else if is_text event.type "content_block_stop"
      then content_block_stop event s
      else if is_text event.type "message_stop"
      then message_stop include_usage s
      else if is_text event.type "error"
      then stream_error s
      else ([], s, false)

  ended :
      StepResult → List ChatCompletionChunk × StreamState → List ChatCompletionChunk × StreamState
  ended (chunks, s, true) later = (chunks, s)
  ended (chunks, s, false) (later, s') = (chunks ++ later, s')

  -- The loop over the events, those that parse.
  unfoldable pub translate :
      Bool → List AnthropicStreamEvent → StreamState → List ChatCompletionChunk × StreamState
  unfolding ended step
  translate include_usage [] s = ([], s)
  translate include_usage (event ∷ events) s =
      let (chunks, s', stopped) = step include_usage event s in
      ended (chunks, s', stopped) (translate include_usage events s')

-- What the promise of the usage gives.
unfoldable pub settled_usage : StreamState → Option Usage
unfolding usage_of_tokens
settled_usage s =
    if s.saw_usage then some (usage_of_tokens s.input_tokens s.output_tokens) else none
