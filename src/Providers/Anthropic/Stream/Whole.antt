-- ===== src/Providers/Anthropic/Stream/Whole.antt =====
-- The stream of packages/core/src/providers/anthropic.ts beside the whole answer.
use text.Mathlib.TextLemmas
use omni_model.Prelude.{
  ℕ, suc, ◌≡◌, refl, ap, ◌∙◌, String, Bool, true, none, some, List, [], ◌∷◌, ◌++◌, ◌||◌, Bool-cases,
  inl, inr,
}
use omni_model.Prelude.Text.{◌<>◌}
use omni_model.Providers.Wire.{ChatCompletionChunk}
use omni_model.Providers.Anthropic.Completion.{map_stop_reason, usage_of_tokens}
use omni_model.Providers.Anthropic.Events.{AnthropicStreamEvent, StreamState, start, no_delta}
use omni_model.Providers.Anthropic.Stream.{step, translate, chunk, settled_usage, usage_chunks}
use omni_model.Providers.Anthropic.Stream.Message
use omni_model.Providers.Anthropic.Stream.Message.{
  StreamedBlock, streamed_text, streamed_call, StreamedMessage, texts, block_events, events_from,
  message_events, arguments_text, whole_block, whole_blocks, whole_message, AssembledCall,
  Assembled, nothing_yet, assemble,
}
use omni_model.Providers.Anthropic.Stream.Steps.{flush-Known, assemble-append}
use omni_model.Providers.Anthropic.Stream.Runs.{
  with_block, At, SameTokens, Runs-none, Runs-append, Brings, text-Brings,
}
use omni_model.Providers.Anthropic.Stream.CallEnds.{call-Brings}

module _ {J : Type 0} where
  abbrev pub with_blocks : List (StreamedBlock J) → Assembled → Assembled
  with_blocks [] a = a
  with_blocks (block ∷ blocks) a = with_blocks blocks (with_block block a)

  -- The number of the block after the last.
  abbrev past : ℕ → List (StreamedBlock J) → ℕ
  past i [] = i
  past i (block ∷ blocks) = past (suc i) blocks

  -- The state after the first event.
  abbrev after_opening : StreamedMessage J → StreamState
  after_opening m = record start {
    chunk_id = "chatcmpl-" <> m.id;
    input_tokens = m.input_tokens;
    saw_usage = true;
  }

  abbrev last_events : StreamedMessage J → List AnthropicStreamEvent
  last_events m =
      record (Message.event "message_delta") {
        stop_reason = some m.stop_reason;
        output_tokens = some m.output_tokens;
      }
      ∷ Message.event "message_stop"
      ∷ []

  abbrev closed : StreamedMessage J → StreamState → StreamState
  closed m s = record s { output_tokens = m.output_tokens; saw_usage = s.saw_usage || true }

  abbrev pub finished : StreamedMessage J → Assembled → Assembled
  finished m a = record a { finish_reason = some (map_stop_reason (some m.stop_reason)) }

module _ (created : ℕ) (model : String) (include_usage : Bool) where
  assemble-usage_chunks :
      (s : StreamState) (a : Assembled)
      → assemble (usage_chunks created model include_usage s) a ≡ a
  unfolding assemble usage_chunks
  assemble-usage_chunks s a = elim (Bool-cases include_usage) [
    | inl asked ↦ rw asked
    | inr not_asked ↦ rw not_asked
  ]

module _ {J : Type 0} (created : ℕ) (model : String) (include_usage : Bool) where
  block-Brings :
      (i : ℕ) (block : StreamedBlock J) (s : StreamState) (a : Assembled)
      → At i s a.calls
      → Brings created model include_usage (block_events i block) s a (suc i) (with_block block a)
  block-Brings i (streamed_text deltas) s a at =
      text-Brings created model include_usage i deltas s a at
  block-Brings i (streamed_call id name deltas input) s a at =
      call-Brings created model include_usage i id name deltas s a at

  blocks-Brings :
      (i : ℕ) (blocks : List (StreamedBlock J)) (s : StreamState) (a : Assembled)
      → At i s a.calls
      → Brings created model include_usage
          (events_from i blocks)
          s
          a
          (past i blocks)
          (with_blocks blocks a)
  blocks-Brings i [] s a at = record {
    after = s;
    runs = Runs-none created model include_usage s a;
    at = at;
    tokens = (refl, refl, refl);
  }
  blocks-Brings i (block ∷ blocks) s a at =
      let first = block-Brings i block s a at in
      let rest = blocks-Brings (suc i) blocks first.after (with_block block a) first.at in
      record {
        after = rest.after;
        runs =
            Runs-append created model include_usage (block_events i block)
              (events_from (suc i) blocks) s first.after rest.after a (with_block block a)
              (with_blocks blocks (with_block block a)) first.runs rest.runs;
        at = rest.at;
        tokens = (
          rest.tokens.0 ∙ first.tokens.0,
          rest.tokens.1 ∙ first.tokens.1,
          rest.tokens.2 ∙ first.tokens.2,
        );
      }

  after_opening-At : (m : StreamedMessage J) → At 0 (after_opening m) []
  after_opening-At m = record {
    known = tt;
    with_args_below = tt;
    flushed_below = tt;
    counted = refl;
  }

  last-translated :
      (m : StreamedMessage J) (i : ℕ) (s : StreamState) (a : Assembled)
      → At i s a.calls
      → translate created model include_usage (last_events m) s ≡ (
        chunk created model s no_delta (some (map_stop_reason (some m.stop_reason)))
            ∷ ([] ++ usage_chunks created model include_usage (closed m s)),
        closed m s,
      )
  unfolding translate step
  last-translated m i s a at =
      rw (flush-Known created model none i s.tool_index_by_block (closed m s) at.known)

  assemble-finish :
      (m : StreamedMessage J) (s : StreamState) (a : Assembled)
      → assemble
          (chunk created model s no_delta (some (map_stop_reason (some m.stop_reason))) ∷ [])
          a
        ≡ finished m a
  unfolding assemble chunk
  assemble-finish m s a = rw (TextLemmas.append-nil a.content)

  abbrev first_chunk : StreamedMessage J → ChatCompletionChunk
  first_chunk m =
      chunk created model (after_opening m)
        (record no_delta { role = some "assistant"; content = some "" }) none

  first-translated :
      (m : StreamedMessage J) (later : List AnthropicStreamEvent)
      → translate created model include_usage
          (record (Message.event "message_start") {
            message_id = some m.id;
            input_tokens = some m.input_tokens;
          }
            ∷ later)
          start
        ≡ (
          first_chunk m ∷ (translate created model include_usage later (after_opening m)).0,
          (translate created model include_usage later (after_opening m)).1,
        )
  unfolding translate step
  first-translated m later = refl

  assemble-first :
      (m : StreamedMessage J) (cs : List ChatCompletionChunk)
      → assemble (first_chunk m ∷ cs) nothing_yet ≡ assemble cs nothing_yet
  unfolding assemble chunk
  assemble-first m cs = refl

  settled-closed :
      (m : StreamedMessage J) (s : StreamState)
      → SameTokens (after_opening m) s
      → settled_usage (closed m s) ≡ some (usage_of_tokens m.input_tokens m.output_tokens)
  unfolding settled_usage
  settled-closed m s (input, saw, id) = rw saw (rw input)

  -- What a client has in the end, and the usage that the provider reports.
  pub message-assembled :
      (m : StreamedMessage J)
      → (assemble (translate created model include_usage (message_events m) start).0 nothing_yet
          ≡ finished m (with_blocks m.blocks nothing_yet))
        × (settled_usage (translate created model include_usage (message_events m) start).1
            ≡ some (usage_of_tokens m.input_tokens m.output_tokens))
  message-assembled m =
      let b = blocks-Brings 0 m.blocks (after_opening m) nothing_yet (after_opening-At m) in
      let all = with_blocks m.blocks nothing_yet in
      rw (first-translated m (events_from 0 m.blocks ++ last_events m)) (
        rw (b.runs.gives (last_events m)) (
          rw (last-translated m (past 0 m.blocks) b.after all b.at) (
            (
              assemble-first m _
                  ∙ assemble-append b.runs.out _ nothing_yet
                  ∙ ap (assemble _) b.runs.assembled
                  ∙ assemble-append
                      (chunk created model b.after no_delta
                          (some (map_stop_reason (some m.stop_reason)))
                        ∷ [])
                      (usage_chunks created model include_usage (closed m b.after)) all
                  ∙ assemble-usage_chunks created model include_usage (closed m b.after) _
                  ∙ assemble-finish m b.after all,
              settled-closed m b.after b.tokens,
            ))))
