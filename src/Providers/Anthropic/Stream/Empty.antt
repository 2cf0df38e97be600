-- ===== src/Providers/Anthropic/Stream/Empty.antt =====
-- A call whose input is streamed as empty texts only, in packages/core/src/providers/anthropic.ts.
use omni_model.Prelude.{ℕ, ◌≡◌, refl, ap, ◌∙◌, String, Bool, List, [], ◌∷◌, All}
use omni_model.Providers.Anthropic.Events.{start}
use omni_model.Providers.Anthropic.Stream.{translate}
use omni_model.Providers.Anthropic.Stream.Message.{
  streamed_call, StreamedMessage, texts, message_events, Assembled, nothing_yet, assemble,
}
use omni_model.Providers.Anthropic.Stream.Whole.{message-assembled}

texts-empty : (deltas : List String) → All (λ delta. delta ≡ "") deltas → texts ("" ∷ deltas) ≡ ""
texts-empty [] empty = refl
texts-empty (delta ∷ deltas) (first, rest) = rw first (rw (texts-empty deltas rest))

-- A message that is one call whose input comes as one or more deltas, all of them the empty text: what
-- a client puts together from the chunks is one call whose arguments are the empty text, not `{}`.
pub empty_deltas-empty_arguments :
    {J : Type 0}
    → (created : ℕ) (model : String) (include_usage : Bool) (m : StreamedMessage J)
      (id name : String) (deltas : List String) (input : J)
    → m.blocks ≡ streamed_call id name ("" ∷ deltas) input ∷ []
    → All (λ delta. delta ≡ "") deltas
    → (assemble
        (translate created model include_usage (message_events m) start).0
        nothing_yet).calls
      ≡ record { id = id; name = name; arguments = "" } ∷ []
empty_deltas-empty_arguments created model include_usage m id name deltas input one empty =
    ap (λ (a : Assembled). a.calls) (message-assembled created model include_usage m).0
    ∙ rw one (rw (texts-empty deltas empty))
