-- ===== src/Providers/Anthropic/Stream/Unknown.antt =====
-- Events of a type that the stream of packages/core/src/providers/anthropic.ts does not know, as pings.
use omni_model.Prelude.{
  ℕ, ◌≡◌, refl, String, Bool, false, arith, List, [], ◌∷◌, ◌||◌, inl, inr, Bool-cases,
  if◌then◌else◌,
}
use omni_model.Providers.Anthropic.Events.{AnthropicStreamEvent, StreamState, is_text}
use omni_model.Providers.Anthropic.Stream.{step, translate}

unfoldable pub is_known : AnthropicStreamEvent → Bool
unfolding is_text
is_known event =
    is_text event.type "message_start"
    || is_text event.type "content_block_start"
    || is_text event.type "content_block_delta"
    || is_text event.type "message_delta"
    || is_text event.type "content_block_stop"
    || is_text event.type "message_stop"
    || is_text event.type "error"

unfoldable pub known : List AnthropicStreamEvent → List AnthropicStreamEvent
unfolding is_known
known [] = []
known (event ∷ events) = let rest = known events in if is_known event then event ∷ rest else rest

module _ (created : ℕ) (model : String) (include_usage : Bool) where
  step-unknown :
      (event : AnthropicStreamEvent) (s : StreamState)
      → is_known event ≡ false
      → step created model include_usage event s ≡ ([], s, false)
  unfolding step is_known
  step-unknown event s unknown = ground arith

  pub translate-known :
      (events : List AnthropicStreamEvent) (s : StreamState)
      → translate created model include_usage events s
        ≡ translate created model include_usage (known events) s
  unfolding translate known
  translate-known [] s = refl
  translate-known (event ∷ events) s = elim (Bool-cases (is_known event)) [
    | inl here ↦ rw here (rw (translate-known events (step created model include_usage event s).1))
    | inr away ↦ rw away (rw (step-unknown event s away) (translate-known events s))
  ]
