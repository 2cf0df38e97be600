-- ===== src/Server/Response/Redaction.antt =====
-- What an upstream adds to an answer does not reach the client.
use omni_model.Prelude.{Option, none, some, List, [], ◌∷◌, map, ◌≡◌, refl, ap, arith}
use omni_model.Server.Response.{
  ChatToolCall, ChatContentPart, text_part, image_part, other_part, Content, no_content,
  text_content, part_content, ChatChoice, ChatCompletion, PublicChatResponseMetadata,
  copy_tool_call, copy_tool_calls, copy_part, copy_content, redact_chat_message, redact_choice,
  redact_chat_completion,
}

-- Lists of one length whose elements are related in turn.
abbrev Pairwise : {A : Type 0} → (A → A → Type 0) → List A → List A → Type 0
Pairwise R [] [] = Unit {0}
Pairwise R [] (y ∷ ys) = ⊥
Pairwise R (x ∷ xs) [] = ⊥
Pairwise R (x ∷ xs) (y ∷ ys) = R x y × Pairwise R xs ys

pub record SameCall (call call' : ChatToolCall) : Type 0 where
  pub same_id : call.id ≡ call'.id
  pub same_name : call.function_name ≡ call'.function_name
  pub same_arguments : call.function_arguments ≡ call'.function_arguments

abbrev pub SamePart : ChatContentPart → ChatContentPart → Type 0
SamePart (text_part text _) (text_part text' _) = text ≡ text'
SamePart (image_part url detail _) (image_part url' detail' _) = (url ≡ url') × (detail ≡ detail')
SamePart (other_part type _) (other_part type' _) = type ≡ type'
SamePart _ _ = ⊥

abbrev pub SameCalls : Option (List ChatToolCall) → Option (List ChatToolCall) → Type 0
SameCalls none none = Unit {0}
SameCalls none (some calls') = ⊥
SameCalls (some calls) none = ⊥
SameCalls (some calls) (some calls') = Pairwise SameCall calls calls'

abbrev pub SameContent : Content → Content → Type 0
SameContent no_content no_content = Unit {0}
SameContent (text_content text) (text_content text') = text ≡ text'
SameContent (part_content parts) (part_content parts') = Pairwise SamePart parts parts'
SameContent _ _ = ⊥

-- The same answer, whatever else the upstream says with it.
pub record SameChoice (choice choice' : ChatChoice) : Type 0 where
  pub same_index : choice.index ≡ choice'.index
  pub same_role : choice.message.role ≡ choice'.message.role
  pub same_content : SameContent choice.message.content choice'.message.content
  pub same_calls : SameCalls choice.message.tool_calls choice'.message.tool_calls
  pub same_finish : choice.finish_reason ≡ choice'.finish_reason

map-Pairwise :
    {A B : Type 0} (R : A → A → Type 0) (f : A → B)
    → ((x y : A) → R x y → f x ≡ f y)
    → (xs ys : List A) → Pairwise R xs ys
    → map f xs ≡ map f ys
map-Pairwise R f alike [] [] h = refl
map-Pairwise R f alike [] (y ∷ ys) h = absurd h
map-Pairwise R f alike (x ∷ xs) [] h = absurd h
map-Pairwise R f alike (x ∷ xs) (y ∷ ys) (h, hs) =
    rw (alike x y h) (rw (map-Pairwise R f alike xs ys hs))

copy_tool_call-same :
    (call call' : ChatToolCall) → SameCall call call' → copy_tool_call call ≡ copy_tool_call call'
unfolding copy_tool_call
copy_tool_call-same call call' same = ground arith

copy_part-same :
    (part part' : ChatContentPart) → SamePart part part' → copy_part part ≡ copy_part part'
unfolding copy_part
copy_part-same (text_part text _) (text_part text' _) same = ap (λ t. text_part t "") same
copy_part-same (image_part url detail _) (image_part url' detail' _) same = ground arith
copy_part-same (other_part type _) (other_part type' _) same = ap (λ t. other_part t "") same
copy_part-same _ _ same = absurd same

copy_content-same :
    (content content' : Content)
    → SameContent content content'
    → copy_content content ≡ copy_content content'
unfolding copy_content
copy_content-same no_content no_content same = refl
copy_content-same (text_content text) (text_content text') same = ap text_content same
copy_content-same (part_content parts) (part_content parts') same =
    ap part_content (map-Pairwise SamePart copy_part copy_part-same parts parts' same)
copy_content-same _ _ same = absurd same

copy_tool_calls-same :
    (calls calls' : Option (List ChatToolCall))
    → SameCalls calls calls'
    → copy_tool_calls calls ≡ copy_tool_calls calls'
unfolding copy_tool_calls
copy_tool_calls-same none none same = refl
copy_tool_calls-same none (some calls') same = absurd same
copy_tool_calls-same (some calls) none same = absurd same
copy_tool_calls-same (some calls) (some calls') same =
    ap some (map-Pairwise SameCall copy_tool_call copy_tool_call-same calls calls' same)

redact_choice-same :
    (choice choice' : ChatChoice)
    → SameChoice choice choice'
    → redact_choice choice ≡ redact_choice choice'
unfolding redact_choice redact_chat_message
redact_choice-same choice choice' same = ground (
  arith,
  copy_content-same choice.message.content choice'.message.content same.same_content,
  copy_tool_calls-same choice.message.tool_calls choice'.message.tool_calls same.same_calls,
)

abbrev pub SameAnswer : ChatCompletion → ChatCompletion → Type 0
SameAnswer completion completion' = Pairwise SameChoice completion.choices completion'.choices

-- Two upstream completions with the same choices (index, role, content, tool calls and finish reason)
-- are redacted alike, whatever their ids, times, models, usage and other fields are.
pub redact_chat_completion-same :
    (completion completion' : ChatCompletion) (metadata : PublicChatResponseMetadata)
    → SameAnswer completion completion'
    → redact_chat_completion completion metadata ≡ redact_chat_completion completion' metadata
unfolding redact_chat_completion
redact_chat_completion-same completion completion' metadata same = rw (
    map-Pairwise SameChoice redact_choice redact_choice-same completion.choices completion'.choices
      same)
