-- ===== src/Server/Response.antt =====
-- packages/core/src/server/response.ts: what a client may see of a completed answer. Fields that the
-- proxy does not know are kept as their JSON text, `extra`.
pub mod Redaction
use omni_model.Prelude.{ℕ, ◌/◌, String, Option, none, some, List, [], ◌∷◌, map}
use omni_model.Prelude.Text.{◌<>◌}
use omni_model.Server.Effects.{Usage}

pub record ChatToolCall : Type 0 where
  pub id : String
  pub function_name : String
  pub function_arguments : String
  pub extra : String

pub data ChatContentPart : Type 0 where
  -- a text, and the part's other fields
  text_part : String → String → ChatContentPart
  -- an image's url and detail, and the other fields
  image_part : String → Option String → String → ChatContentPart
  -- a part of another type, or one whose text or url cannot be read: its type and the other fields
  other_part : String → String → ChatContentPart

pub data Content : Type 0 where
  no_content : Content
  text_content : String → Content
  part_content : List ChatContentPart → Content

pub record ChatMessage : Type 0 where
  pub role : String
  pub content : Content
  pub tool_calls : Option (List ChatToolCall)
  pub extra : String

pub record ChatChoice : Type 0 where
  pub index : ℕ
  pub message : ChatMessage
  pub finish_reason : Option String
  pub extra : String

pub record ChatCompletion : Type 0 where
  pub id : String
  pub created : ℕ
  pub model : String
  pub choices : List ChatChoice
  pub usage : Option Usage
  pub extra : String

pub record PublicChatResponseMetadata : Type 0 where
  pub id : String
  pub created : ℕ
  pub model : String

-- `crypto.randomUUID()` is an argument.
unfoldable pub create_public_chat_response_metadata :
    String → String → ℕ → PublicChatResponseMetadata
create_public_chat_response_metadata uuid model now_ms = record {
  id = "chatcmpl-" <> uuid;
  created = now_ms / 1000;
  model = model;
}

copy_tool_call : ChatToolCall → ChatToolCall
copy_tool_call call = record call { extra = "" }

unfoldable pub copy_tool_calls : Option (List ChatToolCall) → Option (List ChatToolCall)
unfolding copy_tool_call
copy_tool_calls none = none
copy_tool_calls (some calls) = some (map copy_tool_call calls)

copy_part : ChatContentPart → ChatContentPart
copy_part (text_part text extra) = text_part text ""
copy_part (image_part url detail extra) = image_part url detail ""
copy_part (other_part type extra) = other_part type ""

unfoldable pub copy_content : Content → Content
unfolding copy_part
copy_content no_content = no_content
copy_content (text_content text) = text_content text
copy_content (part_content parts) = part_content (map copy_part parts)

unfoldable pub redact_chat_message : ChatMessage → ChatMessage
unfolding copy_tool_calls copy_content
redact_chat_message message = record {
  role = message.role;
  content = copy_content message.content;
  tool_calls = copy_tool_calls message.tool_calls;
  extra = "";
}

redact_choice : ChatChoice → ChatChoice
unfolding redact_chat_message
redact_choice choice = record {
  index = choice.index;
  message = redact_chat_message choice.message;
  finish_reason = choice.finish_reason;
  extra = "";
}

unfoldable pub redact_chat_completion : ChatCompletion → PublicChatResponseMetadata → ChatCompletion
unfolding redact_choice
redact_chat_completion completion metadata = record {
  id = metadata.id;
  created = metadata.created;
  model = metadata.model;
  choices = map redact_choice completion.choices;
  usage = none;
  extra = "";
}

-- The body of an error, as `OpenAIErrorBody` has it.
pub record ErrorBody : Type 0 where
  pub message : String
  pub type : String
  pub param : Option String
  pub code : Option String

unfoldable pub redact_provider_error : ErrorBody → ErrorBody
redact_provider_error body = record {
  message = "upstream model request failed";
  type = body.type;
  param = none;
  code = some "upstream_error";
}

pub record Embedding : Type 0 where
  pub index : ℕ
  -- the vector's JSON text
  pub embedding : String
  pub extra : String

pub record EmbeddingsResponse : Type 0 where
  pub embeddings : List Embedding
  pub model : String
  -- the prompt's and the total tokens
  pub usage : Option (ℕ × ℕ)
  pub extra : String

redact_embedding : Embedding → Embedding
redact_embedding embedding = record embedding { extra = "" }

unfoldable pub redact_embeddings_response : EmbeddingsResponse → String → EmbeddingsResponse
unfolding redact_embedding
redact_embeddings_response response requested_model = record {
  embeddings = map redact_embedding response.embeddings;
  model = requested_model;
  usage = none;
  extra = "";
}
