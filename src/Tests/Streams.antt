-- ===== src/Tests/Streams.antt =====
-- Streams of two events, cut inside a line end and inside a blank line.
use omni_model.Prelude.{ℕ, none, some, List, [], ◌∷◌, ◌++◌, map, ◌≡◌, refl, arith}
use omni_model.Prelude.Codes.{codes}
use omni_model.Util.Sse.{
  new_parser, feed, feed_all, flush, read_sse_stream, sse_stream_from_chunks, parse_event_block,
  push_message, split_at_boundary,
}
use omni_model.Util.Sse.Chunks.{same_text_same_events, feed_complete}
use omni_model.Util.Sse.RoundTrip.{read-sse_stream_from_chunks, data_message}

abbrev cut_in_line_end : List (List ℕ)
cut_in_line_end =
    (codes "event: ping\r") ∷ codes "\ndata: a\ndata: b\n" ∷ codes "\ndata" ∷ codes ": c\r" ∷ []

abbrev uncut : List (List ℕ)
uncut = codes "event: ping\r\ndata: a\ndata: b\n\ndata: c\r" ∷ []

uncut_events :
    read_sse_stream uncut (codes "\n\n")
    ≡ record { event = some (codes "ping"); data_text = codes "a\nb"; id = none }
      ∷ data_message (codes "c")
      ∷ []
unfolding read_sse_stream feed_all feed flush parse_event_block push_message
uncut_events = refl

same_text_same_events_example :
    read_sse_stream cut_in_line_end (codes "\n\n") ≡ read_sse_stream uncut (codes "\n\n")
same_text_same_events_example =
    same_text_same_events cut_in_line_end uncut (codes "\n\n") (codes "\n\n") refl

feed_complete_example :
    split_at_boundary (feed (codes "data: a\n\ndata: b\n\ndata") new_parser).1.buffer ≡ none
feed_complete_example = feed_complete (codes "data: a\n\ndata: b\n\ndata") new_parser

abbrev two_texts : List (List ℕ)
two_texts = codes "{\"a\":1}" ∷ codes "{}" ∷ []

read-sse_stream_from_chunks_example :
    read_sse_stream
      (codes "dat" ∷ codes "a: {\"a\":1}\n" ∷ [])
      (codes "\ndata: {}\n\ndata: [DONE]\n\n")
    ≡ map data_message (two_texts ++ codes "[DONE]" ∷ [])
unfolding sse_stream_from_chunks
read-sse_stream_from_chunks_example =
    read-sse_stream_from_chunks two_texts (codes "dat" ∷ codes "a: {\"a\":1}\n" ∷ [])
      (codes "\ndata: {}\n\ndata: [DONE]\n\n") (ground arith) refl
