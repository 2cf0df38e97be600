-- ===== src/Providers/Anthropic/Messages/Blocks.antt =====
-- What `translateMessages` of packages/core/src/providers/anthropic.ts keeps of the messages.
use mathlib.Core.List.{append_assoc, append-nil}
use omni_model.Prelude.{
  String, ◌≡◌, refl, ap, ◌∙◌, sym, true, Option, none, some, List, [], ◌∷◌, ◌++◌, inl, inr,
  Bool-cases,
}
use omni_model.Providers.Wire.{RequestMessage}
use omni_model.Providers.Anthropic.Messages.Turns.{NotEmpty, Begun, push_turns-Begun}
use omni_model.Providers.Anthropic.Messages.{
  Block, Role, user, assistant, same_role, AnthropicMessage, append_blocks, push_merged, turn_of,
  push_turn, push_turns, user_first, translate_messages, text_block,
}

same_role-eq : (r s : Role) → same_role r s ≡ true → r ≡ s
unfolding same_role
same_role-eq user user same = refl
same_role-eq user assistant same = cc
same_role-eq assistant user same = cc
same_role-eq assistant assistant same = refl

-- Blocks with the role whose turn they are in.
abbrev pub Placed : Type 0 → Type 0
Placed J = List (Role × Block J)

module _ {J : Type 0} where
  abbrev pub placed : Role → List (Block J) → Placed J
  placed role [] = []
  placed role (block ∷ blocks) = (role, block) ∷ placed role blocks

  abbrev pub sent : List (AnthropicMessage J) → Placed J
  sent [] = []
  sent (message ∷ messages) = placed message.role message.content ++ sent messages

  abbrev pub of_turn : Option (Role × List (Block J)) → Placed J
  of_turn none = []
  of_turn (some (role, blocks)) = placed role blocks

  placed-append :
      (role : Role) (bs cs : List (Block J))
      → placed role (bs ++ cs) ≡ placed role bs ++ placed role cs
  placed-append role [] cs = refl
  placed-append role (b ∷ bs) cs = rw (placed-append role bs cs)

  sent-append_blocks :
      (role : Role) (blocks : List (Block J)) (messages : List (AnthropicMessage J))
      → sent (append_blocks role blocks messages) ≡ sent messages ++ placed role blocks
  unfolding append_blocks
  sent-append_blocks role blocks [] = append-nil (placed role blocks)
  sent-append_blocks role blocks (last ∷ []) = elim (Bool-cases (same_role last.role role)) [
    | inl one_role ↦
        rw one_role (simp (placed-append, append-nil) (rw (same_role-eq last.role role one_role)))
    | inr two_roles ↦ rw two_roles (simp (append-nil))
  ]
  sent-append_blocks role blocks (first ∷ next ∷ messages) =
      rw (sent-append_blocks role blocks (next ∷ messages)) (
        sym (
          append_assoc (placed first.role first.content) (sent (next ∷ messages))
            (placed role blocks)))

  sent-push_merged :
      (role : Role) (blocks : List (Block J)) (messages : List (AnthropicMessage J))
      → sent (push_merged role blocks messages) ≡ sent messages ++ placed role blocks
  unfolding push_merged
  sent-push_merged role [] messages = sym (append-nil (sent messages))
  sent-push_merged role (block ∷ blocks) messages =
      sent-append_blocks role (block ∷ blocks) messages

  -- The turn that goes before one of the assistant.
  abbrev pub opening : Placed J → Placed J
  opening [] = []
  opening ((user, block) ∷ later) = []
  opening ((assistant, block) ∷ later) = (user, text_block ".") ∷ []

  opening_turn : Role → Placed J
  opening_turn user = []
  opening_turn assistant = (user, text_block ".") ∷ []

  opening-placed :
      (role : Role) (blocks : List (Block J)) (rest : Placed J)
      → NotEmpty blocks
      → opening (placed role blocks ++ rest) ≡ opening_turn role
  unfolding opening_turn
  opening-placed role [] rest full = elim full [ ]
  opening-placed user (block ∷ blocks) rest full = refl
  opening-placed assistant (block ∷ blocks) rest full = refl

  sent-opening_turn :
      (first : AnthropicMessage J) (rest : List (AnthropicMessage J)) (role : Role)
      → first.role ≡ role
      → sent (user_first (first ∷ rest)) ≡ opening_turn role ++ sent (first ∷ rest)
  unfolding user_first opening_turn
  sent-opening_turn first rest user same =
      rw same (ap (λ (r : Role). placed r first.content ++ sent rest) same)
  sent-opening_turn first rest assistant same =
      rw same
        (ap (λ (r : Role). (user, text_block ".") ∷ (placed r first.content ++ sent rest)) same)

  sent-user_first :
      (messages : List (AnthropicMessage J))
      → Begun messages
      → sent (user_first messages) ≡ opening (sent messages) ++ sent messages
  unfolding user_first
  sent-user_first [] begun = refl
  sent-user_first (first ∷ rest) begun =
      rw (opening-placed first.role first.content (sent rest) (begun.1.1))
        (sent-opening_turn first rest first.role refl)

  module _ (parse : String → Option J) (empty_object : J) where
    -- What the messages add, one after the other.
    abbrev pub turns_of : List RequestMessage → Placed J
    turns_of [] = []
    turns_of (message ∷ messages) =
        of_turn (turn_of parse empty_object message) ++ turns_of messages

    sent-push_turn :
        (turn : Option (Role × List (Block J))) (out : List (AnthropicMessage J))
        → sent (push_turn parse empty_object turn out) ≡ sent out ++ of_turn turn
    unfolding push_turn
    sent-push_turn none out = sym (append-nil (sent out))
    sent-push_turn (some (role, blocks)) out = sent-push_merged role blocks out

    sent-push_turns :
        (messages : List RequestMessage) (out : List (AnthropicMessage J))
        → sent (push_turns parse empty_object messages out) ≡ sent out ++ turns_of messages
    unfolding push_turns
    sent-push_turns [] out = sym (append-nil (sent out))
    sent-push_turns (message ∷ messages) out =
        sent-push_turns messages
          (push_turn parse empty_object (turn_of parse empty_object message) out)
        ∙ rw (sent-push_turn (turn_of parse empty_object message) out) (
            append_assoc (sent out) (of_turn (turn_of parse empty_object message))
              (turns_of messages))

    -- The turns hold all blocks of the messages, in their order and each under its message's role; the
    -- one thing added is a turn with the text "." before a conversation that the assistant begins.
    pub sent-translate_messages :
        (messages : List RequestMessage)
        → sent (translate_messages parse empty_object messages)
          ≡ opening (turns_of messages) ++ turns_of messages
    unfolding translate_messages
    sent-translate_messages messages =
        let turns = push_turns parse empty_object messages [] in
        sent-user_first turns (push_turns-Begun parse empty_object messages [] (user, tt))
        ∙ ap (λ (p : Placed J). opening p ++ p) (sent-push_turns messages [])
