-- ===== src/Util/Sse/Chunks.antt =====
-- `SSEParser` reads the same events however the text is cut into chunks.
use mathlib.Core.List.{append_assoc, append-nil}
use omni_model.Prelude.{
  ℕ, true, false, none, List, [], ◌∷◌, ◌++◌, ◌≡◌, refl, ap, sym, ◌∙◌, inl, inr, arith, Bool-cases,
  if◌then◌else◌,
}
use omni_model.Prelude.Codes.{concat}
use omni_model.Util.Sse.{
  SseParser, new_parser, ends_with_cr, without_last, split_at_boundary, opens_with, normalized,
  feed_incoming, feed, feed_all, read_sse_stream,
}
use omni_model.Util.Sse.Boundary.{
  cuts_line_end, normalized-append, drained, drained-append, drained-none,
}

-- The text that `feed` takes in, and the `\r` that it holds back.
unfoldable pub taken : List ℕ → List ℕ
taken s = if ends_with_cr s then without_last s else s

unfoldable pub held : List ℕ → List ℕ
held s = if ends_with_cr s then 13 ∷ [] else []

feed_lem :
    (text : List ℕ) (parser : SseParser)
    → feed text parser
      ≡ feed_incoming parser.buffer (taken (parser.carry ++ text)) (held (parser.carry ++ text))
unfolding feed taken held
feed_lem text parser = ground arith

ends_with_cr-append :
    (s : List ℕ) (c : ℕ) (t : List ℕ) → ends_with_cr (s ++ c ∷ t) ≡ ends_with_cr (c ∷ t)
unfolding ends_with_cr
ends_with_cr-append [] c t = refl
ends_with_cr-append (d ∷ []) c t = refl
ends_with_cr-append (d ∷ e ∷ s) c t = ends_with_cr-append (e ∷ s) c t

without_last-append :
    (s : List ℕ) (c : ℕ) (t : List ℕ) → without_last (s ++ c ∷ t) ≡ s ++ without_last (c ∷ t)
unfolding without_last
without_last-append [] c t = refl
without_last-append (d ∷ []) c t = refl
without_last-append (d ∷ e ∷ s) c t = ap (◌∷◌ d) (without_last-append (e ∷ s) c t)

pub taken-append : (s : List ℕ) (c : ℕ) (t : List ℕ) → taken (s ++ c ∷ t) ≡ s ++ taken (c ∷ t)
unfolding taken
taken-append s c t = ground (arith, ends_with_cr-append s c t, without_last-append s c t)

pub held-append : (s : List ℕ) (c : ℕ) (t : List ℕ) → held (s ++ c ∷ t) ≡ held (c ∷ t)
unfolding held
held-append s c t = ground (arith, ends_with_cr-append s c t)

without_last-cr : (s : List ℕ) → ends_with_cr s ≡ true → without_last s ++ 13 ∷ [] ≡ s
unfolding ends_with_cr without_last
without_last-cr [] h = cc
without_last-cr (c ∷ []) h = ground arith
without_last-cr (c ∷ d ∷ s) h = ap (◌∷◌ c) (without_last-cr (d ∷ s) h)

taken-held : (s : List ℕ) → taken s ++ held s ≡ s
unfolding taken held
taken-held s = elim (Bool-cases (ends_with_cr s)) [
  | inl cr ↦ rw cr (without_last-cr s cr)
  | inr other ↦ rw other (append-nil s)
]

taken-nil : taken [] ≡ []
unfolding taken ends_with_cr
taken-nil = refl

taken-cut_cr :
    (s t : List ℕ) → ends_with_cr s ≡ true → taken (s ++ t) ≡ without_last s ++ taken (13 ∷ t)
taken-cut_cr s t cr =
    ap taken (
      ap (λ (u : List ℕ). u ++ t) (sym (without_last-cr s cr))
      ∙ append_assoc (without_last s) (13 ∷ []) t)
    ∙ taken-append (without_last s) 13 t

taken-cut_other : (s t : List ℕ) → ends_with_cr s ≡ false → taken (s ++ t) ≡ s ++ taken t
unfolding taken
taken-cut_other s [] other = rw (append-nil s) (rw other (rw taken-nil (sym (append-nil s))))
taken-cut_other s (c ∷ t) other = taken-append s c t

-- What is taken of a text is taken of its parts in turn, the second after what was held back.
taken-cut : (s t : List ℕ) → taken (s ++ t) ≡ taken s ++ taken (held s ++ t)
unfolding held
taken-cut s t = elim (Bool-cases (ends_with_cr s)) [
  | inl cr ↦ rw cr (taken-cut_cr s t cr ∙ unfold taken in rw cr)
  | inr other ↦ rw other (taken-cut_other s t other ∙ unfold taken in rw other)
]

held-cut_cr : (s t : List ℕ) → ends_with_cr s ≡ true → held (s ++ t) ≡ held (13 ∷ t)
held-cut_cr s t cr =
    ap held (
      ap (λ (u : List ℕ). u ++ t) (sym (without_last-cr s cr))
      ∙ append_assoc (without_last s) (13 ∷ []) t)
    ∙ held-append (without_last s) 13 t

held-cut_other : (s t : List ℕ) → ends_with_cr s ≡ false → held (s ++ t) ≡ held t
unfolding held ends_with_cr
held-cut_other s [] other = rw (append-nil s) (rw other)
held-cut_other s (c ∷ t) other = held-append s c t

held_cr : (s : List ℕ) → ends_with_cr s ≡ true → held s ≡ 13 ∷ []
unfolding held
held_cr s cr = rw cr

held_other : (s : List ℕ) → ends_with_cr s ≡ false → held s ≡ []
unfolding held
held_other s other = rw other

held-cut : (s t : List ℕ) → held (s ++ t) ≡ held (held s ++ t)
held-cut s t = elim (Bool-cases (ends_with_cr s)) [
  | inl cr ↦ rw (held_cr s cr) (held-cut_cr s t cr)
  | inr other ↦ rw (held_other s other) (held-cut_other s t other)
]

taken_after_cr : (t : List ℕ) → opens_with 10 (taken (13 ∷ t)) ≡ false
unfolding taken ends_with_cr without_last
taken_after_cr [] = refl
taken_after_cr (c ∷ t) = ground arith

cuts_line_end-cut : (s t : List ℕ) → cuts_line_end (taken s) (taken (held s ++ t)) ≡ false
unfolding held
cuts_line_end-cut s t = elim (Bool-cases (ends_with_cr s)) [
  | inl cr ↦ rw cr (rw (taken_after_cr t) (ground arith))
  | inr other ↦ rw other (unfold taken in ground arith)
]

pub feed_result :
    (text : List ℕ) (parser : SseParser)
    → let incoming = parser.carry ++ text in
      let result = drained (parser.buffer ++ normalized (taken incoming)) in
      feed text parser ≡ (result.0, record { buffer = result.1; carry = held incoming })
unfolding feed_incoming
feed_result text parser = feed_lem text parser

-- `feed` takes every complete event off the buffer: its loop ends only when none is left.
pub feed_complete :
    (text : List ℕ) (parser : SseParser) → split_at_boundary (feed text parser).1.buffer ≡ none
feed_complete text parser =
    rw (feed_result text parser)
      (drained-none (parser.buffer ++ normalized (taken (parser.carry ++ text))))

-- Two texts are fed like one.
feed-append :
    (s t : List ℕ) (parser : SseParser)
    → let first = feed s parser in
      let second = feed t first.1 in feed (s ++ t) parser ≡ (first.0 ++ second.0, second.1)
feed-append s t parser = rw (feed_result (s ++ t) parser) (
    rw (feed_result s parser) (
      rw (feed_result t _) (
        rw (← append_assoc parser.carry s t) (
          rw (taken-cut (parser.carry ++ s) t) (
            rw (held-cut (parser.carry ++ s) t) (
              rw (normalized-append _ _ (cuts_line_end-cut (parser.carry ++ s) t)) (
                rw
                  (← append_assoc parser.buffer (normalized (taken (parser.carry ++ s)))
                    (normalized (taken (held (parser.carry ++ s) ++ t))))
                  (rw (
                    drained-append (parser.buffer ++ normalized (taken (parser.carry ++ s)))
                      (normalized (taken (held (parser.carry ++ s) ++ t))))))))))))

fed_in_parts :
    (texts : List (List ℕ)) (last : List ℕ) (parser : SseParser)
    → let first = feed_all texts parser in
      let second = feed last first.1 in
      feed (concat texts ++ last) parser ≡ (first.0 ++ second.0, second.1)
unfolding feed_all
fed_in_parts [] last parser = refl
fed_in_parts (text ∷ texts) last parser = rw (append_assoc text (concat texts) last) (
    rw (feed-append text (concat texts ++ last) parser) (
      rw (fed_in_parts texts last (feed text parser).1)
        (rw (append_assoc (feed text parser).0 (feed_all texts (feed text parser).1).0 _))))

read-concat :
    (texts : List (List ℕ)) (last : List ℕ)
    → read_sse_stream texts last ≡ read_sse_stream [] (concat texts ++ last)
unfolding read_sse_stream feed_all
read-concat texts last = rw (fed_in_parts texts last new_parser)

-- A stream gives the same events however its text is cut into chunks.
pub same_text_same_events :
    (texts texts' : List (List ℕ)) (last last' : List ℕ)
    → concat texts ++ last ≡ concat texts' ++ last'
    → read_sse_stream texts last ≡ read_sse_stream texts' last'
same_text_same_events texts texts' last last' same =
    read-concat texts last ∙ ap (read_sse_stream []) same ∙ sym (read-concat texts' last')
