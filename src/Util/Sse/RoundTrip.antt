-- ===== src/Util/Sse/RoundTrip.antt =====
-- What `sseStreamFromChunks` writes is read back by `readSSEStream`.
use mathlib.Core.List.{append_assoc, append-nil}
use omni_model.Prelude.{
  ℕ, false, none, some, List, [], ◌∷◌, ◌++◌, map, ◌≡◌, refl, ap, sym, ◌∙◌, arith, eqb, All,
}
use omni_model.Prelude.Codes.{codes, concat}
use omni_model.Util.Sse.{
  SseMessage, new_parser, ends_with_cr, without_last, replace_crlf, replace_cr, normalized,
  push_message, feed_all, flush, read_sse_stream, encode_sse_data, sse_stream_from_chunks,
  parse_event_block, split_lines,
}
use omni_model.Util.Sse.Boundary.{
  drained, drained-nil, IsLine, drained-line, drained-unfinished, split_at_boundary-nil,
  split_at_boundary-lf,
}
use omni_model.Util.Sse.Chunks.{
  taken, held, taken-append, held-append, feed_result, same_text_same_events,
}

abbrev HasNoCr : List ℕ → Type 0
HasNoCr = All (λ c. eqb c 13 ≡ false)

abbrev pub data_message : List ℕ → SseMessage
data_message text = record { event = none; data_text = text; id = none }

HasNoCr-append : (s t : List ℕ) → HasNoCr s → HasNoCr t → HasNoCr (s ++ t)
HasNoCr-append [] t h k = k
HasNoCr-append (c ∷ s) t (h, hs) k = (h, HasNoCr-append s t hs k)

IsLine-HasNoCr : (s : List ℕ) → IsLine s → HasNoCr s
IsLine-HasNoCr [] h = tt
IsLine-HasNoCr (c ∷ s) (h, hs) = (h.1, IsLine-HasNoCr s hs)

replace_cr_id : (s : List ℕ) → HasNoCr s → replace_cr s ≡ s
unfolding replace_cr
replace_cr_id [] h = refl
replace_cr_id (c ∷ s) (h, hs) = rw h (ap (◌∷◌ c) (replace_cr_id s hs))

replace_crlf_id : (s : List ℕ) → HasNoCr s → replace_crlf s ≡ s
unfolding replace_crlf
replace_crlf_id [] h = refl
replace_crlf_id (c ∷ s) (h, hs) = rw h (ap (◌∷◌ c) (replace_crlf_id s hs))

normalized_id : (s : List ℕ) → HasNoCr s → normalized s ≡ s
unfolding normalized
normalized_id s h = rw (replace_crlf_id s h) (replace_cr_id s h)

ends_with_cr_no : (s : List ℕ) → HasNoCr s → ends_with_cr s ≡ false
unfolding ends_with_cr
ends_with_cr_no [] h = refl
ends_with_cr_no (c ∷ []) (h, hs) = h
ends_with_cr_no (c ∷ d ∷ s) (h, hs) = ends_with_cr_no (d ∷ s) hs

abbrev HasNoLf : List ℕ → Type 0
HasNoLf = All (λ c. eqb c 10 ≡ false)

IsLine-HasNoLf : (s : List ℕ) → IsLine s → HasNoLf s
IsLine-HasNoLf [] h = tt
IsLine-HasNoLf (c ∷ s) (h, hs) = (h.0, IsLine-HasNoLf s hs)

split_lines-HasNoLf : (s : List ℕ) → HasNoLf s → split_lines s ≡ s ∷ []
unfolding split_lines
split_lines-HasNoLf [] h = refl
split_lines-HasNoLf (c ∷ s) (h, hs) = rw h (rw (split_lines-HasNoLf s hs))

IsLine-data : (text : List ℕ) → IsLine text → IsLine (codes "data: " ++ text)
IsLine-data text h = ground (arith, h)

parse_event_block-data :
    (text : List ℕ)
    → HasNoLf text
    → parse_event_block (codes "data: " ++ text) ≡ some (data_message text)
unfolding parse_event_block
parse_event_block-data text h =
    rw (split_lines-HasNoLf (codes "data: " ++ text) (ground (arith, h))) refl

drained-data :
    (text rest : List ℕ)
    → IsLine text
    → drained (encode_sse_data text ++ rest)
      ≡ (data_message text ∷ (drained rest).0, (drained rest).1)
unfolding encode_sse_data push_message
drained-data text rest h = rw (append_assoc text (10 ∷ 10 ∷ []) rest) (
    drained-line (codes "data: " ++ text) rest (IsLine-data text h)
    ∙ rw (parse_event_block-data text (IsLine-HasNoLf text h)))

-- Every text of the list has no line end.
abbrev pub AreLines : List (List ℕ) → Type 0
AreLines = All IsLine

HasNoCr-encode : (text : List ℕ) → IsLine text → HasNoCr (encode_sse_data text)
unfolding encode_sse_data
HasNoCr-encode text h =
    HasNoCr-append (codes "data: ") (text ++ 10 ∷ 10 ∷ []) (ground arith)
      (HasNoCr-append text (10 ∷ 10 ∷ []) (IsLine-HasNoCr text h) (ground arith))

HasNoCr-stream :
    (texts : List (List ℕ)) → AreLines texts → HasNoCr (concat (sse_stream_from_chunks texts))
unfolding sse_stream_from_chunks
HasNoCr-stream [] h =
    HasNoCr-append (encode_sse_data (codes "[DONE]")) []
      (HasNoCr-encode (codes "[DONE]") (ground arith)) tt
HasNoCr-stream (text ∷ texts) (h, hs) =
    HasNoCr-append (encode_sse_data text) (concat (sse_stream_from_chunks texts))
      (HasNoCr-encode text h) (HasNoCr-stream texts hs)

drained-stream :
    (texts : List (List ℕ))
    → AreLines texts
    → drained (concat (sse_stream_from_chunks texts))
      ≡ (map data_message (texts ++ codes "[DONE]" ∷ []), [])
unfolding sse_stream_from_chunks
drained-stream [] h = drained-data (codes "[DONE]") [] (ground arith) ∙ rw drained-nil
drained-stream (text ∷ texts) (h, hs) =
    drained-data text (concat (sse_stream_from_chunks texts)) h ∙ rw (drained-stream texts hs)

taken_id : (s : List ℕ) → HasNoCr s → taken s ≡ s
unfolding taken
taken_id s h = rw (ends_with_cr_no s h)

held_no : (s : List ℕ) → HasNoCr s → held s ≡ []
unfolding held
held_no s h = rw (ends_with_cr_no s h)

read_whole :
    (texts : List (List ℕ))
    → AreLines texts
    → read_sse_stream [] (concat (sse_stream_from_chunks texts))
      ≡ map data_message (texts ++ codes "[DONE]" ∷ [])
unfolding read_sse_stream feed_all flush parse_event_block push_message
read_whole texts h =
    let clean = HasNoCr-stream texts h in
    rw (feed_result (concat (sse_stream_from_chunks texts)) new_parser) (
      rw (taken_id _ clean) (
        rw (held_no _ clean)
          (rw (normalized_id _ clean) (rw (drained-stream texts h) (append-nil _)))))

-- The stream that is written for JSON texts is read back as one event for each of them and one for
-- the end, however its text is cut into chunks.
pub read-sse_stream_from_chunks :
    (texts chunks : List (List ℕ)) (last : List ℕ)
    → AreLines texts
    → concat chunks ++ last ≡ concat (sse_stream_from_chunks texts)
    → read_sse_stream chunks last ≡ map data_message (texts ++ codes "[DONE]" ∷ [])
read-sse_stream_from_chunks texts chunks last h same =
    same_text_same_events chunks [] last (concat (sse_stream_from_chunks texts)) same
    ∙ read_whole texts h

split_lines-lf : (s : List ℕ) → HasNoLf s → split_lines (s ++ 10 ∷ []) ≡ s ∷ [] ∷ []
unfolding split_lines
split_lines-lf [] h = refl
split_lines-lf (c ∷ s) (h, hs) = rw h (rw (split_lines-lf s hs))

parse_event_block-lf :
    (text : List ℕ)
    → HasNoLf text
    → parse_event_block (codes "data: " ++ text ++ 10 ∷ []) ≡ some (data_message text)
unfolding parse_event_block
parse_event_block-lf text h = rw (split_lines-lf (codes "data: " ++ text) (ground (arith, h))) refl

HasNoLf-append : (s t : List ℕ) → HasNoLf s → HasNoLf t → HasNoLf (s ++ t)
HasNoLf-append [] t h k = k
HasNoLf-append (c ∷ s) t (h, hs) k = (h, HasNoLf-append s t hs k)

-- A stream that is one unfinished event.
read_unfinished :
    (u v c : List ℕ)
    → taken u ≡ v
    → held u ≡ c
    → HasNoCr v
    → drained v ≡ ([], v)
    → read_sse_stream [] u ≡ push_message (parse_event_block (v ++ c)) []
unfolding read_sse_stream feed_all flush
read_unfinished u v c is_taken is_held clean waits =
    rw (feed_result u new_parser) (rw is_taken (rw is_held (rw (normalized_id v clean) (rw waits))))

taken_cr : (s : List ℕ) → taken (s ++ 13 ∷ []) ≡ s
unfolding taken ends_with_cr without_last
taken_cr s = taken-append s 13 [] ∙ append-nil s

held_cr : (s : List ℕ) → held (s ++ 13 ∷ []) ≡ 13 ∷ []
unfolding held ends_with_cr
held_cr s = held-append s 13 []

module _ (text : List ℕ) (h : IsLine text) where
  read_cr :
      read_sse_stream [] (codes "data: " ++ text ++ 13 ∷ []) ≡ data_message (text ++ 13 ∷ []) ∷ []
  unfolding push_message
  read_cr =
      let s = codes "data: " ++ text in
      let line = IsLine-data text h in
      read_unfinished (s ++ 13 ∷ []) s (13 ∷ []) (taken_cr s) (held_cr s) (IsLine-HasNoCr s line) (
        ap drained (sym (append-nil s))
        ∙ drained-unfinished s [] line split_at_boundary-nil
        ∙ rw (append-nil s))
      ∙ rw (
          parse_event_block-data (text ++ 13 ∷ [])
            (HasNoLf-append text (13 ∷ []) (IsLine-HasNoLf text h) (ground arith)))

  read_lf : read_sse_stream [] (codes "data: " ++ text ++ 10 ∷ []) ≡ data_message text ∷ []
  unfolding push_message
  read_lf =
      let s = codes "data: " ++ text in
      let line = IsLine-data text h in
      let clean = HasNoCr-append s (10 ∷ []) (IsLine-HasNoCr s line) (ground arith) in
      read_unfinished (s ++ 10 ∷ []) (s ++ 10 ∷ []) [] (taken_id (s ++ 10 ∷ []) clean)
        (held_no (s ++ 10 ∷ []) clean) clean
        (drained-unfinished s (10 ∷ []) line split_at_boundary-lf)
      ∙ rw (append-nil (text ++ 10 ∷ [])) (rw (parse_event_block-lf text (IsLine-HasNoLf text h)))

-- A carriage return that ends a stream stays in the last event's data, unlike a line feed.
pub last_cr_kept :
    (text : List ℕ)
    → IsLine text
    → (read_sse_stream [] (codes "data: " ++ text ++ 13 ∷ []) ≡ data_message (text ++ 13 ∷ []) ∷ [])
      × (read_sse_stream [] (codes "data: " ++ text ++ 10 ∷ []) ≡ data_message text ∷ [])
last_cr_kept text h = (read_cr text h, read_lf text h)
