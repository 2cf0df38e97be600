-- ===== src/Providers/Anthropic/Stream/Runs.antt =====
-- Runs of the stream of packages/core/src/providers/anthropic.ts beside what a client puts together.
use text.Mathlib.TextLemmas
use omni_model.Prelude.{
  ℕ, suc, ◌<◌, ◌≡◌, refl, sym, ap, ◌∙◌, subst, String, Bool, true, false, none, some, List, [], ◌∷◌,
  ◌++◌, arith, length, or_else,
}
use omni_model.Prelude.Text.{◌<>◌}
use omni_model.Providers.Wire.{ChatChunkToolCall, ChatCompletionChunk}
use omni_model.Providers.Anthropic.Events.{AnthropicStreamEvent, StreamState, has_block, no_delta}
use omni_model.Providers.Anthropic.Stream.{step, chunk}
use omni_model.Providers.Anthropic.Stream.Message.{
  StreamedBlock, streamed_text, streamed_call, texts, text_event, stop_event, text_start,
  text_events, arguments_text, AssembledCall, Assembled, add_at, assemble,
}
use omni_model.Providers.Anthropic.Stream.Steps.{
  assemble-append, Known, Known-with_args, Known-next, flush-Known, Gives, Gives-step, Gives-append,
}

pub add_at-new :
    (t : ChatChunkToolCall) (calls : List AssembledCall)
    → add_at (length calls) t calls
      ≡ calls
        ++ record { id = or_else t.id ""; name = or_else t.name ""; arguments = t.arguments } ∷ []
unfolding add_at
add_at-new t [] = refl
add_at-new t (c ∷ cs) = rw (add_at-new t cs)

pub add_at-last :
    (t : ChatChunkToolCall) (calls : List AssembledCall) (c : AssembledCall)
    → add_at (length calls) t (calls ++ c ∷ [])
      ≡ calls ++ record c { arguments = c.arguments <> t.arguments } ∷ []
unfolding add_at
add_at-last t [] c = refl
add_at-last t (d ∷ ds) c = rw (add_at-last t ds c)

-- What a block adds to what a client has.
abbrev pub with_block : {J : Type 0} → StreamedBlock J → Assembled → Assembled
with_block (streamed_text deltas) a = record a { content = a.content <> texts deltas }
with_block (streamed_call id name deltas input) a = record a {
  calls = a.calls ++ record { id = id; name = name; arguments = arguments_text deltas } ∷ [];
}

abbrev pub Below : ℕ → List ℕ → Type 0
Below i [] = Unit
Below i (j ∷ js) = (j < i) × Below i js

pub has_block-Below : (i : ℕ) (js : List ℕ) → Below i js → has_block i js ≡ false
has_block-Below i [] below = refl
has_block-Below i (j ∷ js) (low, below) = ground (arith, has_block-Below i js below)

pub Below-next : (i : ℕ) (js : List ℕ) → Below i js → Below (suc i) js
Below-next i [] below = tt
Below-next i (j ∷ js) (low, below) = (omega arith, Below-next i js below)

-- The block is marked once for each delta of its input.
abbrev pub marks : List String → ℕ → List ℕ → List ℕ
marks [] i js = js
marks (delta ∷ deltas) i js = marks deltas i (i ∷ js)

pub Below-marks :
    (deltas : List String) (i : ℕ) (js : List ℕ)
    → Below (suc i) js
    → Below (suc i) (marks deltas i js)
Below-marks [] i js below = below
Below-marks (delta ∷ deltas) i js below = Below-marks deltas i (i ∷ js) (omega arith, below)

pub has_block-marks :
    (deltas : List String) (i : ℕ) (js : List ℕ)
    → has_block i js ≡ true
    → has_block i (marks deltas i js) ≡ true
has_block-marks [] i js here = here
has_block-marks (delta ∷ deltas) i js here = has_block-marks deltas i (i ∷ js) (ground arith)

pub Known-marks :
    (deltas : List String) (i k : ℕ) (js flushed : List ℕ) (calls : List (ℕ × ℕ))
    → Known k js flushed calls
    → Known k (marks deltas i js) flushed calls
Known-marks [] i k js flushed calls known = known
Known-marks (delta ∷ deltas) i k js flushed calls known =
    Known-marks deltas i k (i ∷ js) flushed calls (Known-with_args k i js flushed calls known)

-- The stream before the block `i`, beside what a client has.
pub record At (i : ℕ) (s : StreamState) (calls : List AssembledCall) : Type 0 where
  pub known : Known i s.tool_blocks_with_args s.tool_blocks_flushed s.tool_index_by_block
  pub with_args_below : Below i s.tool_blocks_with_args
  pub flushed_below : Below i s.tool_blocks_flushed
  pub counted : s.next_tool_index ≡ length calls

abbrev pub SameTokens : StreamState → StreamState → Type 0
SameTokens s s' =
    (s'.input_tokens ≡ s.input_tokens) × (s'.saw_usage ≡ s.saw_usage) × (s'.chunk_id ≡ s.chunk_id)

pub At-next :
    (i : ℕ) (s : StreamState) (calls : List AssembledCall) → At i s calls → At (suc i) s calls
At-next i s calls at = record {
  known = Known-next i s.tool_blocks_with_args s.tool_blocks_flushed s.tool_index_by_block at.known;
  with_args_below = Below-next i s.tool_blocks_with_args at.with_args_below;
  flushed_below = Below-next i s.tool_blocks_flushed at.flushed_below;
  counted = at.counted;
}

module _ (created : ℕ) (model : String) (include_usage : Bool) where
  -- The events bring the stream from `s` to `s'` and a client from `a` to `a'`.
  pub record Runs (events : List AnthropicStreamEvent) (s : StreamState) (a : Assembled)
      (s' : StreamState) (a' : Assembled) : Type 0 where
    pub out : List ChatCompletionChunk
    pub gives : Gives created model include_usage events s out s'
    pub assembled : assemble out a ≡ a'

  pub Runs-none : (s : StreamState) (a : Assembled) → Runs [] s a s a
  unfolding assemble
  Runs-none s a = record { out = []; gives = λ later. refl; assembled = refl }

  pub Runs-append :
      (es fs : List AnthropicStreamEvent) (s s' s'' : StreamState) (a a' a'' : Assembled)
      → Runs es s a s' a'
      → Runs fs s' a' s'' a''
      → Runs (es ++ fs) s a s'' a''
  Runs-append es fs s s' s'' a a' a'' first second = record {
    out = first.out ++ second.out;
    gives =
        Gives-append created model include_usage es fs s s' s'' first.out second.out first.gives
          second.gives;
    assembled =
        assemble-append first.out second.out a
        ∙ ap (assemble second.out) first.assembled
        ∙ second.assembled;
  }

  pub Runs-step :
      (event : AnthropicStreamEvent) (s s' : StreamState) (out : List ChatCompletionChunk)
      (a a' : Assembled)
      → step created model include_usage event s ≡ (out, s', false)
      → assemble out a ≡ a'
      → Runs (event ∷ []) s a s' a'
  Runs-step event s s' out a a' stepped assembled = record {
    out = out;
    gives = Gives-step created model include_usage event s s' out stepped;
    assembled = assembled;
  }

  pub stop-Runs :
      (i : ℕ) (s : StreamState) (a : Assembled) → At i s a.calls → Runs (stop_event i ∷ []) s a s a
  unfolding step assemble
  stop-Runs i s a at =
      Runs-step (stop_event i) s s [] a a
        (rw (flush-Known created model (some i) i s.tool_index_by_block s at.known)) refl

  text_event-Runs :
      (i : ℕ) (text : String) (s : StreamState) (a : Assembled)
      → Runs (text_event i text ∷ []) s a s (record a { content = a.content <> text })
  unfolding step assemble chunk
  text_event-Runs i text s a =
      Runs-step (text_event i text) s s
        (chunk created model s (record no_delta { content = some text }) none ∷ []) a
        (record a { content = a.content <> text }) refl refl

  text_events-Runs :
      (i : ℕ) (deltas : List String) (s : StreamState) (a : Assembled)
      → At i s a.calls
      → Runs (text_events i deltas) s a s (record a { content = a.content <> texts deltas })
  text_events-Runs i [] s a at =
      subst (λ (t : String). Runs (stop_event i ∷ []) s a s (record a { content = t }))
        (sym (TextLemmas.append-nil a.content)) (stop-Runs i s a at)
  text_events-Runs i (text ∷ deltas) s a at =
      let b : Assembled = record a { content = a.content <> text } in
      subst (λ (t : String). Runs (text_events i (text ∷ deltas)) s a s (record a { content = t }))
        (TextLemmas.append_assoc a.content text (texts deltas))
        (Runs-append (text_event i text ∷ []) (text_events i deltas) s s s a b
          (record b { content = b.content <> texts deltas }) (text_event-Runs i text s a)
          (text_events-Runs i deltas s b at))

  -- A block brings the stream to the next one.
  pub record Brings (events : List AnthropicStreamEvent) (s : StreamState) (a : Assembled) (i : ℕ)
      (a' : Assembled) : Type 0 where
    pub after : StreamState
    pub runs : Runs events s a after a'
    pub at : At i after a'.calls
    pub tokens : SameTokens s after

  pub text-Brings :
      (i : ℕ) (deltas : List String) (s : StreamState) (a : Assembled)
      → At i s a.calls
      → Brings
          (text_start i ∷ text_events i deltas)
          s
          a
          (suc i)
          (record a { content = a.content <> texts deltas })
  unfolding step assemble
  text-Brings i deltas s a at = record {
    after = s;
    runs =
        Runs-append (text_start i ∷ []) (text_events i deltas) s s s a a
          (record a { content = a.content <> texts deltas })
          (Runs-step (text_start i) s s [] a a refl refl) (text_events-Runs i deltas s a at);
    at = At-next i s a.calls at;
    tokens = (refl, refl, refl);
  }
