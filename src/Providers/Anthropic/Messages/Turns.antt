-- ===== src/Providers/Anthropic/Messages/Turns.antt =====
-- The turns that `translateMessages` of packages/core/src/providers/anthropic.ts sends.
use omni_model.Prelude.{
  ◌≡◌, refl, subst, String, false, Option, none, some, List, [], ◌∷◌, ◌++◌, ◌==◌, map, arith, inl,
  inr, Bool-cases, All, or_else,
}
use omni_model.Server.Response.{
  ChatToolCall, ChatContentPart, text_part, image_part, other_part, Content, no_content,
  text_content, part_content,
}
use omni_model.Providers.Wire.{RequestMessage}
use omni_model.Providers.Anthropic.Messages.{
  Block, text_block, base64_image, url_image, tool_use, tool_result, Role, user, assistant,
  same_role, AnthropicMessage, text_blocks, image_blocks, content_parts_to_blocks, data_url,
  append_blocks, push_merged, text_from_content, content_blocks, user_first, tool_call_to_block,
  call_blocks, turn_of, push_turn, push_turns, translate_messages,
}

abbrev pub other_role : Role → Role
other_role user = assistant
other_role assistant = user

next_role : (r s : Role) → same_role r s ≡ false → s ≡ other_role r
unfolding same_role
next_role user user different = cc
next_role user assistant different = refl
next_role assistant user different = refl
next_role assistant assistant different = cc

module _ {J : Type 0} where
  -- A text block has a text.
  abbrev pub HasText : Block J → Type 0
  HasText (text_block text) = (text == "") ≡ false
  HasText (base64_image media base64) = Unit
  HasText (url_image url) = Unit
  HasText (tool_use id name input) = Unit
  HasText (tool_result id content) = Unit

  abbrev pub NotEmpty : List (Block J) → Type 0
  NotEmpty [] = ⊥
  NotEmpty (block ∷ blocks) = Unit

  -- Turns of one role and the other in alternation, each with content and no empty text.
  abbrev pub Turns : Role → List (AnthropicMessage J) → Type 0
  Turns role [] = Unit
  Turns role (message ∷ messages) =
      (message.role ≡ role)
      × NotEmpty message.content
      × All HasText message.content
      × Turns (other_role role) messages

  All-HasText_append :
      (bs cs : List (Block J)) → All HasText bs → All HasText cs → All HasText (bs ++ cs)
  All-HasText_append [] cs all all' = all'
  All-HasText_append (b ∷ bs) cs (here, all) all' = (here, All-HasText_append bs cs all all')

  NotEmpty-append : (bs cs : List (Block J)) → NotEmpty bs → NotEmpty (bs ++ cs)
  NotEmpty-append [] cs full = elim full [ ]
  NotEmpty-append (b ∷ bs) cs full = tt

  -- The role that the turns begin with.
  abbrev pub Begun : List (AnthropicMessage J) → Type 0
  Begun messages = (role : Role) × Turns role messages

  append_blocks-Turns :
      (role begin : Role) (blocks : List (Block J)) (first : AnthropicMessage J)
      (messages : List (AnthropicMessage J))
      → NotEmpty blocks
      → All HasText blocks
      → Turns begin (first ∷ messages)
      → Turns begin (append_blocks role blocks (first ∷ messages))
  unfolding append_blocks
  append_blocks-Turns role begin blocks first [] full texts (same, some_content, all, rest) =
      elim (Bool-cases (same_role first.role role)) [
        | inl one_role ↦ rw one_role (
          same,
          NotEmpty-append first.content blocks some_content,
          All-HasText_append first.content blocks all texts,
          tt,
        )
        | inr two_roles ↦ rw two_roles (
          same,
          some_content,
          all,
          (
            subst (λ (r : Role). role ≡ other_role r) (same) (next_role first.role role two_roles),
            full,
            texts,
            tt,
          ),
        )
      ]
  append_blocks-Turns role begin blocks first (next ∷ messages) full texts
        (same, some_content, all, rest) =
      (
        same,
        some_content,
        all,
        append_blocks-Turns role (other_role begin) blocks next messages full texts rest,
      )

module _ (J : Type 0) where
  text_blocks-HasText : (text : String) → All HasText (text_blocks {J = J} text)
  unfolding text_blocks
  text_blocks-HasText text = elim (Bool-cases (text == "")) [
    | inl empty ↦ rw empty tt
    | inr full ↦ rw full (full, tt)
  ]

  image_blocks-HasText :
      (url : String) (found : Option (String × String))
      → All HasText (image_blocks {J = J} url found)
  unfolding image_blocks
  image_blocks-HasText url (some (media, base64)) = (tt, tt)
  image_blocks-HasText url none = ground arith

  content_parts-HasText :
      (parts : List ChatContentPart) → All HasText (content_parts_to_blocks {J = J} parts)
  unfolding content_parts_to_blocks
  content_parts-HasText [] = tt
  content_parts-HasText (text_part text extra ∷ parts) =
      All-HasText_append (text_blocks text) (content_parts_to_blocks parts)
        (text_blocks-HasText text) (content_parts-HasText parts)
  content_parts-HasText (image_part url detail extra ∷ parts) =
      All-HasText_append (image_blocks url (data_url url)) (content_parts_to_blocks parts)
        (image_blocks-HasText url (data_url url)) (content_parts-HasText parts)
  content_parts-HasText (other_part type extra ∷ parts) = content_parts-HasText parts

  content_blocks-HasText : (content : Content) → All HasText (content_blocks {J = J} content)
  unfolding content_blocks
  content_blocks-HasText no_content = tt
  content_blocks-HasText (text_content text) = text_blocks-HasText text
  content_blocks-HasText (part_content parts) = content_parts-HasText parts

module _ {J : Type 0} where
  push_merged-Begun :
      (role : Role) (blocks : List (Block J)) (messages : List (AnthropicMessage J))
      → All HasText blocks
      → Begun messages
      → Begun (push_merged role blocks messages)
  unfolding push_merged append_blocks
  push_merged-Begun role [] messages texts begun = begun
  push_merged-Begun role (block ∷ blocks) [] texts begun = (role, (refl, tt, texts, tt))
  push_merged-Begun role (block ∷ blocks) (first ∷ messages) texts (begin, turns) =
      (begin, append_blocks-Turns role begin (block ∷ blocks) first messages tt texts turns)

  user_first-Turns :
      (messages : List (AnthropicMessage J)) → Begun messages → Turns user (user_first messages)
  unfolding user_first
  user_first-Turns [] begun = tt
  user_first-Turns (first ∷ messages) (user, turns) = rw (turns.0) turns
  user_first-Turns (first ∷ messages) (assistant, turns) =
      rw (turns.0) (refl, tt, (refl, tt), turns)

  module _ (parse : String → Option J) (empty_object : J) where
    map-HasText :
        (calls : List ChatToolCall)
        → All HasText (map (tool_call_to_block parse empty_object) calls)
    unfolding tool_call_to_block
    map-HasText [] = tt
    map-HasText (call ∷ calls) = (tt, map-HasText calls)

    call_blocks-HasText :
        (calls : Option (List ChatToolCall)) → All HasText (call_blocks parse empty_object calls)
    unfolding call_blocks
    call_blocks-HasText none = tt
    call_blocks-HasText (some calls) = map-HasText calls

    push_turn_of-Begun :
        (message : RequestMessage) (messages : List (AnthropicMessage J))
        → Begun messages
        → Begun (push_turn parse empty_object (turn_of parse empty_object message) messages)
    unfolding push_turn turn_of
    push_turn_of-Begun message messages begun = elim (Bool-cases (message.role == "tool")) [
      | inl tool ↦ rw tool (
          push_merged-Begun user
            (tool_result (or_else message.tool_call_id "") (text_from_content message.content) ∷ [])
            messages (tt, tt) begun)
      | inr not_tool ↦ rw not_tool (elim (Bool-cases (message.role == "assistant")) [
        | inl from_assistant ↦ rw from_assistant (
            push_merged-Begun assistant _ messages
              (All-HasText_append (content_blocks message.content)
                (call_blocks parse empty_object message.tool_calls)
                (content_blocks-HasText J message.content) (call_blocks-HasText message.tool_calls))
              begun)
        | inr not_assistant ↦ rw not_assistant (elim (Bool-cases (message.role == "user")) [
          | inl from_user ↦
              rw from_user
                (push_merged-Begun user _ messages (content_blocks-HasText J message.content) begun)
          | inr neither ↦ rw neither begun
        ])
      ])
    ]

    pub push_turns-Begun :
        (messages : List RequestMessage) (out : List (AnthropicMessage J))
        → Begun out
        → Begun (push_turns parse empty_object messages out)
    unfolding push_turns
    push_turns-Begun [] out begun = begun
    push_turns-Begun (message ∷ messages) out begun =
        push_turns-Begun messages _ (push_turn_of-Begun message out begun)

    -- Whatever the messages of a request are, the turns that are sent begin with the user and alternate,
    -- and none is empty or holds an empty text.
    pub translate_messages-Turns :
        (messages : List RequestMessage)
        → Turns user (translate_messages parse empty_object messages)
    unfolding translate_messages
    translate_messages-Turns messages =
        user_first-Turns (push_turns parse empty_object messages [])
          (push_turns-Begun messages [] (user, tt))
