-- ===== src/Util/Sse.antt =====
-- packages/core/src/util/sse.ts: server-sent events. A text is the list of its code points, and a
-- stream of bytes is the list of the texts that the platform's decoder makes of its chunks.
pub mod Boundary
pub mod Chunks
pub mod RoundTrip
use omni_model.Prelude.{
  ℕ, zero, suc, Bool, true, false, Option, none, some, List, [], ◌∷◌, ◌++◌, ◌&&◌, eqb, length,
  is_some, ◌||◌, not, if◌then◌else◌,
}
use omni_model.Prelude.Codes.{codes, same_codes}

pub record SseMessage : Type 0 where
  pub event : Option (List ℕ)
  pub data_text : List ℕ
  pub id : Option (List ℕ)

pub record SseParser : Type 0 where
  pub buffer : List ℕ
  pub carry : List ℕ

abbrev pub new_parser : SseParser
new_parser = record { buffer = []; carry = [] }

unfoldable pub ends_with_cr : List ℕ → Bool
ends_with_cr [] = false
ends_with_cr (c ∷ []) = eqb c 13
ends_with_cr (c ∷ d ∷ s) = ends_with_cr (d ∷ s)

-- `s.slice(0, -1)`
unfoldable pub without_last : List ℕ → List ℕ
without_last [] = []
without_last (c ∷ []) = []
without_last (c ∷ d ∷ s) = c ∷ without_last (d ∷ s)

abbrev pub opens_with : ℕ → List ℕ → Bool
opens_with c [] = false
opens_with c (d ∷ s) = eqb d c

-- `s.replace(/\r\n/g, "\n")`: a carriage return before a line feed goes.
unfoldable pub replace_crlf : List ℕ → List ℕ
replace_crlf [] = []
replace_crlf (c ∷ s) =
    let rest = replace_crlf s in if eqb c 13 && opens_with 10 s then rest else c ∷ rest

-- `s.replace(/\r/g, "\n")`
unfoldable pub replace_cr : List ℕ → List ℕ
replace_cr [] = []
replace_cr (c ∷ s) = (if eqb c 13 then 10 else c) ∷ replace_cr s

unfoldable pub normalized : List ℕ → List ℕ
unfolding replace_cr replace_crlf
normalized s = replace_cr (replace_crlf s)

after_first : List ℕ → List ℕ
after_first [] = []
after_first (c ∷ s) = s

longer : ℕ → Option (List ℕ × List ℕ) → Option (List ℕ × List ℕ)
longer c none = none
longer c (some (block, rest)) = some (c ∷ block, rest)

-- The text before and after the first `\n\n`.
unfoldable pub split_at_boundary : List ℕ → Option (List ℕ × List ℕ)
unfolding after_first longer
split_at_boundary [] = none
split_at_boundary (c ∷ s) =
    let found = longer c (split_at_boundary s) in
    if eqb c 10 && opens_with 10 s then some ([], after_first s) else found

first_line : ℕ → List (List ℕ) → List (List ℕ)
first_line c [] = (c ∷ []) ∷ []
first_line c (line ∷ lines) = (c ∷ line) ∷ lines

-- `block.split("\n")`
unfoldable pub split_lines : List ℕ → List (List ℕ)
unfolding first_line
split_lines [] = [] ∷ []
split_lines (c ∷ s) = let rest = split_lines s in if eqb c 10 then [] ∷ rest else first_line c rest

-- The field of a line and what follows its first colon.
unfoldable pub split_field : List ℕ → List ℕ × List ℕ
split_field [] = ([], [])
split_field (c ∷ s) =
    let (field, value) = split_field s in if eqb c 58 then ([], s) else (c ∷ field, value)

unfoldable pub without_space : List ℕ → List ℕ
without_space [] = []
without_space (c ∷ s) = if eqb c 32 then s else c ∷ s

-- What the lines of a block have given so far.
pub record EventFields : Type 0 where
  pub event : Option (List ℕ)
  pub id : Option (List ℕ)
  pub data_lines : List (List ℕ)

read_field : List ℕ × List ℕ → EventFields → EventFields
unfolding same_codes without_space
read_field (field, value) fields =
    if same_codes field (codes "event")
    then record fields { event = some (without_space value) }
    else if same_codes field (codes "data")
    then record fields { data_lines = fields.data_lines ++ without_space value ∷ [] }
    else if same_codes field (codes "id")
    then record fields { id = some (without_space value) }
    else fields

is_empty : List ℕ → Bool
is_empty [] = true
is_empty (c ∷ s) = false

unfoldable pub read_line : List ℕ → EventFields → EventFields
unfolding read_field split_field is_empty
read_line line fields =
    if is_empty line || opens_with 58 line then fields else read_field (split_field line) fields

unfoldable pub read_lines : List (List ℕ) → EventFields → EventFields
unfolding read_line
read_lines [] fields = fields
read_lines (line ∷ lines) fields = read_lines lines (read_line line fields)

-- `data.join("\n")`
unfoldable pub join_lines : List (List ℕ) → List ℕ
join_lines [] = []
join_lines (line ∷ []) = line
join_lines (line ∷ next ∷ lines) = line ++ 10 ∷ join_lines (next ∷ lines)

none_read : List (List ℕ) → Bool
none_read [] = true
none_read (line ∷ lines) = false

message_of : EventFields → Option SseMessage
unfolding join_lines none_read
message_of fields =
    if not (is_some fields.event) && not (is_some fields.id) && none_read fields.data_lines
    then none
    else some
        (record { event = fields.event; data_text = join_lines fields.data_lines; id = fields.id })

unfoldable pub parse_event_block : List ℕ → Option SseMessage
unfolding message_of read_lines split_lines
parse_event_block block =
    message_of
      (read_lines (split_lines block) (record { event = none; id = none; data_lines = [] }))

unfoldable pub push_message : Option SseMessage → List SseMessage → List SseMessage
push_message none messages = messages
push_message (some message) messages = message ∷ messages

-- The loop of `feed` over a buffer, with a bound on its rounds: the messages, and what stays.
unfoldable pub feed_loop : ℕ → List ℕ → List SseMessage × List ℕ
unfolding split_at_boundary push_message
feed_loop zero buffer = ([], buffer)
feed_loop (suc rounds) buffer = elim (split_at_boundary buffer) [
  | none ↦ ([], buffer)
  | some (block, rest) ↦
      let (messages, left) = feed_loop rounds rest in
      (push_message (parse_event_block block) messages, left)
]

-- Each round takes two characters off the buffer, so that its length is enough.
feed_incoming : List ℕ → List ℕ → List ℕ → List SseMessage × SseParser
unfolding feed_loop normalized
feed_incoming buffer incoming carry =
    let all = buffer ++ normalized incoming in
    let (messages, left) = feed_loop (length all) all in
    (messages, record { buffer = left; carry = carry })

unfoldable pub feed : List ℕ → SseParser → List SseMessage × SseParser
unfolding feed_incoming ends_with_cr without_last
feed text parser =
    let incoming = parser.carry ++ text in
    if ends_with_cr incoming
    then feed_incoming parser.buffer (without_last incoming) (13 ∷ [])
    else feed_incoming parser.buffer incoming []

unfoldable pub flush : SseParser → Option SseMessage × SseParser
flush parser = (parse_event_block (parser.buffer ++ parser.carry), new_parser)

unfoldable pub feed_all : List (List ℕ) → SseParser → List SseMessage × SseParser
feed_all [] parser = ([], parser)
feed_all (text ∷ texts) parser =
    let (messages, parser') = feed text parser in
    let (later, parser'') = feed_all texts parser' in (messages ++ later, parser'')

-- `readSSEStream` of the decoded chunks and of what the decoder gives at the end of the stream.
unfoldable pub read_sse_stream : List (List ℕ) → List ℕ → List SseMessage
read_sse_stream texts last =
    let (messages, parser) = feed_all texts new_parser in
    let (later, parser') = feed last parser in
    messages ++ later ++ push_message (flush parser').0 []

unfoldable pub encode_sse_data : List ℕ → List ℕ
encode_sse_data text = codes "data: " ++ text ++ 10 ∷ 10 ∷ []

-- `sseStreamFromChunks` of the chunks' JSON texts, read to its end.
unfoldable pub sse_stream_from_chunks : List (List ℕ) → List (List ℕ)
unfolding encode_sse_data
sse_stream_from_chunks [] = encode_sse_data (codes "[DONE]") ∷ []
sse_stream_from_chunks (json ∷ later) = encode_sse_data json ∷ sse_stream_from_chunks later
