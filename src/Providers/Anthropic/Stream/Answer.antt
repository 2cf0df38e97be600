-- ===== src/Providers/Anthropic/Stream/Answer.antt =====
-- What a client gets from packages/core/src/providers/anthropic.ts: by the stream, or as a whole.
use mathlib.Core.List.{append_assoc, append-nil}
use text.Mathlib.TextLemmas
use omni_model.Prelude.{
  ℕ, ◌≡◌, refl, sym, ap, ◌∙◌, String, Bool, Option, none, some, List, [], ◌∷◌, ◌++◌,
}
use omni_model.Prelude.Text.{◌<>◌, join}
use omni_model.Server.Response.{
  ChatToolCall, Content, no_content, text_content, part_content, ChatChoice,
}
use omni_model.Providers.Anthropic.Completion.{
  joined_texts, calls_if_any, answer_texts, answer_calls, to_chat_completion,
}
use omni_model.Providers.Anthropic.Events.{start}
use omni_model.Providers.Anthropic.Stream.{translate, settled_usage}
use omni_model.Providers.Anthropic.Stream.Message.{
  StreamedBlock, streamed_text, streamed_call, StreamedMessage, texts, message_events,
  arguments_text, whole_blocks, whole_message, AssembledCall, Assembled, nothing_yet, assemble,
}
use omni_model.Providers.Anthropic.Stream.Runs.{with_block}
use omni_model.Providers.Anthropic.Stream.Whole.{with_blocks, finished, message-assembled}

abbrev text_of : Content → String
text_of (text_content s) = s
text_of no_content = ""
text_of (part_content parts) = ""

abbrev call_of : ChatToolCall → AssembledCall
call_of call = record {
  id = call.id;
  name = call.function_name;
  arguments = call.function_arguments;
}

abbrev calls_of : List ChatToolCall → List AssembledCall
calls_of [] = []
calls_of (call ∷ calls) = call_of call ∷ calls_of calls

abbrev calls_if_some : Option (List ChatToolCall) → List AssembledCall
calls_if_some none = []
calls_if_some (some calls) = calls_of calls

-- What a client reads from the first choice of a whole answer: no content counts as the empty text.
abbrev pub answer_of : List ChatChoice → Assembled
answer_of [] = nothing_yet
answer_of (choice ∷ choices) = record {
  content = text_of choice.message.content;
  calls = calls_if_some choice.message.tool_calls;
  finish_reason = choice.finish_reason;
}

join-eq-texts : (ts : List String) → join "" ts ≡ texts ts
join-eq-texts [] = refl
join-eq-texts (t ∷ []) = sym (TextLemmas.append-nil t)
join-eq-texts (t ∷ u ∷ ts) =
    ap (λ (s : String). t <> s) (TextLemmas.nil-append (join "" (u ∷ ts)) ∙ join-eq-texts (u ∷ ts))

module _ {J : Type 0} (stringify : J → String) (empty_object : J) where
  -- The deltas of a call's input, one after the other, are the input as it is printed.
  abbrev pub InputsMatch : List (StreamedBlock J) → Type 0
  InputsMatch [] = Unit
  InputsMatch (streamed_text deltas ∷ blocks) = InputsMatch blocks
  InputsMatch (streamed_call id name deltas input ∷ blocks) =
      (arguments_text deltas ≡ stringify input) × InputsMatch blocks

  content-with_blocks :
      (blocks : List (StreamedBlock J)) (a : Assembled)
      → (with_blocks blocks a).content ≡ a.content <> texts (answer_texts (whole_blocks blocks))
  unfolding answer_texts
  content-with_blocks [] a = sym (TextLemmas.append-nil a.content)
  content-with_blocks (streamed_text deltas ∷ blocks) a =
      content-with_blocks blocks (record a { content = a.content <> texts deltas })
      ∙ TextLemmas.append_assoc a.content (texts deltas)
          (texts (answer_texts (whole_blocks blocks)))
  content-with_blocks (streamed_call id name deltas input ∷ blocks) a =
      content-with_blocks blocks (with_block (streamed_call id name deltas input) a)

  calls-with_blocks :
      (blocks : List (StreamedBlock J)) (a : Assembled)
      → InputsMatch blocks
      → (with_blocks blocks a).calls
        ≡ a.calls ++ calls_of (answer_calls stringify empty_object (whole_blocks blocks))
  unfolding answer_calls
  calls-with_blocks [] a match = sym (append-nil a.calls)
  calls-with_blocks (streamed_text deltas ∷ blocks) a match =
      calls-with_blocks blocks (record a { content = a.content <> texts deltas }) match
  calls-with_blocks (streamed_call id name deltas input ∷ blocks) a (same, match) =
      calls-with_blocks blocks (with_block (streamed_call id name deltas input) a) match
      ∙ append_assoc a.calls _ _
      ∙ ap
          (λ (s : String).
            a.calls
            ++ record { id = id; name = name; arguments = s }
              ∷ calls_of (answer_calls stringify empty_object (whole_blocks blocks)))
          same

  text_of-joined_texts :
      (ts : List String) → text_of (joined_texts stringify empty_object ts) ≡ texts ts
  unfolding joined_texts
  text_of-joined_texts [] = refl
  text_of-joined_texts (t ∷ ts) = join-eq-texts (t ∷ ts)

  calls_if_some-calls_if_any :
      (calls : List ChatToolCall)
      → calls_if_some (calls_if_any stringify empty_object calls) ≡ calls_of calls
  unfolding calls_if_any
  calls_if_some-calls_if_any [] = refl
  calls_if_some-calls_if_any (call ∷ calls) = refl

  whole-answer :
      (m : StreamedMessage J) (model : String) (now_ms : ℕ)
      → InputsMatch m.blocks
      → finished m (with_blocks m.blocks nothing_yet)
        ≡ answer_of
            (to_chat_completion stringify empty_object (whole_message m) model now_ms).choices
  unfolding to_chat_completion
  whole-answer m model now_ms match =
      rw
        (content-with_blocks m.blocks nothing_yet
          ∙ TextLemmas.nil-append (texts (answer_texts (whole_blocks m.blocks))))
        (rw (calls-with_blocks m.blocks nothing_yet match) (
          rw (text_of-joined_texts (answer_texts (whole_blocks m.blocks))) (
            rw (
              calls_if_some-calls_if_any
                (answer_calls stringify empty_object (whole_blocks m.blocks))))))

  -- For a message of Anthropic's, streamed with each block's events in order, where the deltas of each
  -- call's input are the input as it is printed (`{}` when there is none): what a client puts together
  -- from the chunks is the content, the calls and the reason to finish of the answer that the same
  -- message as a whole is translated to, and the usage that the stream settles is its usage.
  pub stream-eq-whole :
      (m : StreamedMessage J) (created : ℕ) (model : String) (include_usage : Bool) (now_ms : ℕ)
      → InputsMatch m.blocks
      → (assemble (translate created model include_usage (message_events m) start).0 nothing_yet
          ≡ answer_of
              (to_chat_completion stringify empty_object (whole_message m) model now_ms).choices)
        × (settled_usage (translate created model include_usage (message_events m) start).1
            ≡ (to_chat_completion stringify empty_object (whole_message m) model now_ms).usage)
  unfolding to_chat_completion
  stream-eq-whole m created model include_usage now_ms match =
      let (assembled, settled) = message-assembled created model include_usage m in
      (assembled ∙ whole-answer m model now_ms match, settled)
