-- ===== src/Providers/Anthropic/Messages.antt =====
-- `translateMessages` of packages/core/src/providers/anthropic.ts: the messages of a request as blocks
-- of alternating turns.
pub mod Turns
pub mod Blocks
use Prim.Native.Char.{code}
use Prim.Native.String
use Prim.Native.String.{String}
use omni_model.Prelude.{
  ℕ, eqb, Bool, true, false, Option, none, some, List, [], ◌∷◌, ◌++◌, map, ◌==◌, ◌||◌, is_some,
  if◌then◌else◌, or_else,
}
use omni_model.Prelude.Text.{◌<>◌, join, strip_prefix}
use omni_model.Server.Response.{
  ChatToolCall, ChatContentPart, text_part, image_part, other_part, Content, no_content,
  text_content, part_content,
}
use omni_model.Providers.Wire.{RequestMessage}

pub data Block (J : Type 0) : Type 0 where
  text_block : String → Block J
  -- a media type and the data, or a URL
  base64_image : String → String → Block J
  url_image : String → Block J
  tool_use : String → String → J → Block J
  tool_result : String → String → Block J

pub data Role : Type 0 where
  user assistant : Role

pub record AnthropicMessage (J : Type 0) : Type 0 where
  pub role : Role
  pub content : List (Block J)

same_role : Role → Role → Bool
same_role user user = true
same_role user assistant = false
same_role assistant user = false
same_role assistant assistant = true

-- The characters before the first `;` or `,`, and what follows.
media_of : String → String × String
media_of String.[] = ("", "")
media_of (String.◌∷◌ c s) =
    let (media, rest) = media_of s in
    if eqb (code c) 59 || eqb (code c) 44 then ("", String.◌∷◌ c s) else (String.◌∷◌ c media, rest)

with_data : String → Option String → Option (String × String)
with_data media none = none
with_data media (some base64) = if base64 == "" then none else some (media, base64)

after_data_scheme : Option String → Option (String × String)
unfolding media_of with_data
after_data_scheme none = none
after_data_scheme (some rest) =
    let (media, tail) = media_of rest in
    if media == "" then none else with_data media (strip_prefix ";base64," tail)

-- `DATA_URL_PATTERN`: the media type and the data.
unfoldable pub data_url : String → Option (String × String)
unfolding after_data_scheme strip_prefix
data_url url = after_data_scheme (strip_prefix "data:" url)

texts_of : List ChatContentPart → List String
texts_of [] = []
texts_of (text_part text extra ∷ parts) = text ∷ texts_of parts
texts_of (image_part url detail extra ∷ parts) = texts_of parts
texts_of (other_part type extra ∷ parts) = texts_of parts

unfoldable pub text_from_content : Content → String
unfolding texts_of
text_from_content no_content = ""
text_from_content (text_content text) = text
text_from_content (part_content parts) = join "\n\n" (texts_of parts)

module _ {J : Type 0} where
  text_blocks : String → List (Block J)
  text_blocks text = if text == "" then [] else text_block text ∷ []

  image_blocks : String → Option (String × String) → List (Block J)
  image_blocks url (some (media, base64)) = base64_image media base64 ∷ []
  image_blocks url none =
      if is_some (strip_prefix "http://" url) || is_some (strip_prefix "https://" url)
      then url_image url ∷ []
      else []

  unfoldable pub content_parts_to_blocks : List ChatContentPart → List (Block J)
  unfolding text_blocks image_blocks data_url
  content_parts_to_blocks [] = []
  content_parts_to_blocks (text_part text extra ∷ parts) =
      text_blocks text ++ content_parts_to_blocks parts
  content_parts_to_blocks (image_part url detail extra ∷ parts) =
      image_blocks url (data_url url) ++ content_parts_to_blocks parts
  content_parts_to_blocks (other_part type extra ∷ parts) = content_parts_to_blocks parts

  -- The last message takes the blocks, or a new one does.
  unfoldable pub append_blocks :
      Role → List (Block J) → List (AnthropicMessage J) → List (AnthropicMessage J)
  unfolding same_role
  append_blocks role blocks [] = record { role = role; content = blocks } ∷ []
  append_blocks role blocks (last ∷ []) =
      if same_role last.role role
      then record last { content = last.content ++ blocks } ∷ []
      else last ∷ record { role = role; content = blocks } ∷ []
  append_blocks role blocks (first ∷ next ∷ messages) =
      first ∷ append_blocks role blocks (next ∷ messages)

  unfoldable pub push_merged :
      Role → List (Block J) → List (AnthropicMessage J) → List (AnthropicMessage J)
  unfolding append_blocks
  push_merged role [] messages = messages
  push_merged role (block ∷ blocks) messages = append_blocks role (block ∷ blocks) messages

  unfoldable pub content_blocks : Content → List (Block J)
  unfolding text_blocks content_parts_to_blocks
  content_blocks (text_content text) = text_blocks text
  content_blocks no_content = []
  content_blocks (part_content parts) = content_parts_to_blocks parts

  -- A conversation that an assistant opens gets a turn before it.
  unfoldable pub user_first : List (AnthropicMessage J) → List (AnthropicMessage J)
  user_first [] = []
  user_first (first ∷ messages) = elim first.role [
    | user ↦ first ∷ messages
    | assistant ↦ record { role = user; content = text_block "." ∷ [] } ∷ first ∷ messages
  ]

  module _ (parse : String → Option J) (empty_object : J) where
    unfoldable pub tool_call_to_block : ChatToolCall → Block J
    tool_call_to_block call =
        tool_use call.id call.function_name (or_else (parse call.function_arguments) empty_object)

    call_blocks : Option (List ChatToolCall) → List (Block J)
    unfolding tool_call_to_block
    call_blocks none = []
    call_blocks (some calls) = map tool_call_to_block calls

    -- The blocks that a message adds, and to whose turn.
    unfoldable pub turn_of : RequestMessage → Option (Role × List (Block J))
    unfolding content_blocks call_blocks text_from_content
    turn_of message =
        if message.role == "tool"
        then some (
          user,
          tool_result (or_else message.tool_call_id "") (text_from_content message.content) ∷ [],
        )
        else if message.role == "assistant"
        then some (assistant, content_blocks message.content ++ call_blocks message.tool_calls)
        else if message.role == "user"
        then some (user, content_blocks message.content)
        else none

    push_turn :
        Option (Role × List (Block J)) → List (AnthropicMessage J) → List (AnthropicMessage J)
    unfolding push_merged
    push_turn none messages = messages
    push_turn (some (role, blocks)) messages = push_merged role blocks messages

    -- The loop over the messages.
    unfoldable pub push_turns :
        List RequestMessage → List (AnthropicMessage J) → List (AnthropicMessage J)
    unfolding push_turn turn_of
    push_turns [] out = out
    push_turns (message ∷ messages) out = push_turns messages (push_turn (turn_of message) out)

    -- The turns of `translateMessages`.
    unfoldable pub translate_messages : List RequestMessage → List (AnthropicMessage J)
    unfolding push_turns user_first
    translate_messages messages = user_first (push_turns messages [])

is_system : String → Bool
is_system role = role == "system" || role == "developer"

system_part : String → List String
system_part text = if text == "" then [] else text ∷ []

unfoldable pub system_parts : List RequestMessage → List String
unfolding is_system system_part text_from_content
system_parts [] = []
system_parts (message ∷ messages) =
    let rest = system_parts messages in
    if is_system message.role then system_part (text_from_content message.content) ++ rest else rest

joined_parts : List String → Option String
joined_parts [] = none
joined_parts (part ∷ parts) = some (join "\n\n" (part ∷ parts))

-- The system prompt of `translateMessages`.
unfoldable pub system_of : List RequestMessage → Option String
unfolding system_parts joined_parts
system_of messages = joined_parts (system_parts messages)
