-- ===== src/Providers/Anthropic/Stream/Steps.antt =====
-- Events that do not end the stream of packages/core/src/providers/anthropic.ts, one after the other.
use mathlib.Core.List.{append_assoc}
use omni_model.Prelude.{
  ℕ, suc, not, ◌<◌, ◌≡◌, refl, sym, ap, String, Bool, true, false, Option, some, List, [], ◌∷◌,
  ◌++◌, ◌||◌, eqb, arith,
}
use omni_model.Providers.Wire.{ChatCompletionChunk}
use omni_model.Providers.Anthropic.Events.{
  AnthropicStreamEvent, StreamState, get_index, set_index, has_block, selected,
}
use omni_model.Providers.Anthropic.Stream.{step, translate, flush_empty_tool_args}
use omni_model.Providers.Anthropic.Stream.Message.{Assembled, assemble}

pub assemble-append :
    (cs ds : List ChatCompletionChunk) (a : Assembled)
    → assemble (cs ++ ds) a ≡ assemble ds (assemble cs a)
unfolding assemble
assemble-append [] ds a = refl
assemble-append (c ∷ cs) ds a = assemble-append cs ds _

-- The blocks of these calls are below `i` and need no `{}`.
abbrev pub Known : ℕ → List ℕ → List ℕ → List (ℕ × ℕ) → Type 0
Known i with_args flushed [] = Unit
Known i with_args flushed ((block, index) ∷ calls) =
    (block < i)
    × ((has_block block with_args || has_block block flushed) ≡ true)
    × Known i with_args flushed calls

pub Known-with_args :
    (i j : ℕ) (with_args flushed : List ℕ) (calls : List (ℕ × ℕ))
    → Known i with_args flushed calls
    → Known i (j ∷ with_args) flushed calls
Known-with_args i j with_args flushed [] known = tt
Known-with_args i j with_args flushed ((block, index) ∷ calls) (low, settled, known) =
    (low, ground arith, Known-with_args i j with_args flushed calls known)

pub Known-flushed :
    (i j : ℕ) (with_args flushed : List ℕ) (calls : List (ℕ × ℕ))
    → Known i with_args flushed calls
    → Known i with_args (j ∷ flushed) calls
Known-flushed i j with_args flushed [] known = tt
Known-flushed i j with_args flushed ((block, index) ∷ calls) (low, settled, known) =
    (low, ground arith, Known-flushed i j with_args flushed calls known)

-- A block with a new number goes to the end.
pub set_index-new :
    (i index : ℕ) (with_args flushed : List ℕ) (calls : List (ℕ × ℕ))
    → Known i with_args flushed calls
    → set_index i index calls ≡ calls ++ (i, index) ∷ []
unfolding set_index
set_index-new i index with_args flushed [] known = refl
set_index-new i index with_args flushed ((block, old) ∷ calls) (low, settled, known) =
    ground (arith, set_index-new i index with_args flushed calls known)

pub get_index-new :
    (i index : ℕ) (with_args flushed : List ℕ) (calls : List (ℕ × ℕ))
    → Known i with_args flushed calls
    → get_index i (calls ++ (i, index) ∷ []) ≡ some index
unfolding get_index
get_index-new i index with_args flushed [] known = ground arith
get_index-new i index with_args flushed ((block, old) ∷ calls) (low, settled, known) =
    ground (arith, get_index-new i index with_args flushed calls known)

pub Known-new :
    (i index : ℕ) (with_args flushed : List ℕ) (calls : List (ℕ × ℕ))
    → Known i with_args flushed calls
    → (has_block i with_args || has_block i flushed) ≡ true
    → Known (suc i) with_args flushed (calls ++ (i, index) ∷ [])
Known-new i index with_args flushed [] known settled = (omega arith, settled, tt)
Known-new i index with_args flushed ((block, old) ∷ calls) (low, done, known) settled =
    (omega arith, done, Known-new i index with_args flushed calls known settled)

pub Known-next :
    (i : ℕ) (with_args flushed : List ℕ) (calls : List (ℕ × ℕ))
    → Known i with_args flushed calls
    → Known (suc i) with_args flushed calls
Known-next i with_args flushed [] known = tt
Known-next i with_args flushed ((block, old) ∷ calls) (low, done, known) =
    (omega arith, done, Known-next i with_args flushed calls known)

settled-skipped : (a b c : Bool) → (b || c) ≡ true → (not a || b || c) ≡ true
settled-skipped true b c settled = ground arith
settled-skipped false b c settled = ground arith

module _ (created : ℕ) (model : String) where
  -- Calls that are known need no delta, whichever are looked for.
  pub flush-Known :
      (only : Option ℕ) (i : ℕ) (calls : List (ℕ × ℕ)) (s : StreamState)
      → Known i s.tool_blocks_with_args s.tool_blocks_flushed calls
      → flush_empty_tool_args created model only calls s ≡ ([], s)
  unfolding flush_empty_tool_args
  flush-Known only i [] s known = refl
  flush-Known only i ((block, index) ∷ calls) s (low, done, known) =
      rw
        (settled-skipped (selected only block) (has_block block s.tool_blocks_with_args)
          (has_block block s.tool_blocks_flushed) done)
        (flush-Known only i calls s known)

  -- Other calls than the one looked for are passed over.
  pub flush-other :
      (i : ℕ) (calls more : List (ℕ × ℕ)) (s : StreamState) (with_args flushed : List ℕ)
      → Known i with_args flushed calls
      → flush_empty_tool_args created model (some i) (calls ++ more) s
        ≡ flush_empty_tool_args created model (some i) more s
  unfolding flush_empty_tool_args
  flush-other i [] more s with_args flushed known = refl
  flush-other i ((block, index) ∷ calls) more s with_args flushed (low, done, known) =
      let different : eqb block i ≡ false = ground arith in
      rw different (flush-other i calls more s with_args flushed known)

  module _ (include_usage : Bool) where
    -- The events give these chunks and this state, and the stream goes on.
    abbrev pub Gives :
        List AnthropicStreamEvent → StreamState → List ChatCompletionChunk → StreamState → Type 0
    Gives events s out s' =
        (later : List AnthropicStreamEvent)
        → translate created model include_usage (events ++ later) s ≡ (
          out ++ (translate created model include_usage later s').0,
          (translate created model include_usage later s').1,
        )

    pub Gives-step :
        (event : AnthropicStreamEvent) (s s' : StreamState) (out : List ChatCompletionChunk)
        → step created model include_usage event s ≡ (out, s', false)
        → Gives (event ∷ []) s out s'
    unfolding translate
    Gives-step event s s' out stepped later = rw stepped

    pub Gives-append :
        (es fs : List AnthropicStreamEvent) (s s' s'' : StreamState)
        (out out' : List ChatCompletionChunk)
        → Gives es s out s'
        → Gives fs s' out' s''
        → Gives (es ++ fs) s (out ++ out') s''
    Gives-append es fs s s' s'' out out' first second later = rw (append_assoc es fs later) (
        rw (first (fs ++ later)) (
          rw (second later) (
            ap
              (λ (cs : List ChatCompletionChunk).
                (cs, (translate created model include_usage later s'').1))
              (sym (append_assoc out out' (translate created model include_usage later s'').0)))))
