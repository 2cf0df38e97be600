-- ===== src/Util/Sse/Boundary.antt =====
-- The text that `SSEParser` keeps, cut in two: line ends, blank lines and the loop of `feed`.
use omni_model.Prelude.{
  ℕ, zero, suc, ◌+◌, ◌≤◌, Bool, false, ◌&&◌, Option, none, some, List, [], ◌∷◌, ◌++◌, ◌≡◌, refl,
  ◌∙◌, inl, inr, arith, eqb, length, Option-cases, if◌then◌else◌, All,
}
use omni_model.Util.Sse.{
  SseMessage, ends_with_cr, opens_with, replace_crlf, replace_cr, normalized, split_at_boundary,
  feed_loop, push_message, parse_event_block, after_first, longer,
}

-- A `\r\n` is cut in two between the texts.
abbrev pub cuts_line_end : List ℕ → List ℕ → Bool
cuts_line_end s t = ends_with_cr s && opens_with 10 t

replace_crlf-append :
    (s t : List ℕ)
    → cuts_line_end s t ≡ false
    → replace_crlf (s ++ t) ≡ replace_crlf s ++ replace_crlf t
unfolding replace_crlf ends_with_cr
replace_crlf-append [] t h = refl
replace_crlf-append (c ∷ []) t h = ground arith
replace_crlf-append (c ∷ d ∷ s) t h = ground (arith, replace_crlf-append (d ∷ s) t h)

replace_cr-append : (s t : List ℕ) → replace_cr (s ++ t) ≡ replace_cr s ++ replace_cr t
unfolding replace_cr
replace_cr-append [] t = refl
replace_cr-append (c ∷ s) t = rw (replace_cr-append s t)

pub normalized-append :
    (s t : List ℕ) → cuts_line_end s t ≡ false → normalized (s ++ t) ≡ normalized s ++ normalized t
unfolding normalized
normalized-append s t h = rw (replace_crlf-append s t h) (replace_cr-append _ _)

pub split_at_boundary-nil : split_at_boundary [] ≡ none
unfolding split_at_boundary
split_at_boundary-nil = refl

split_at_boundary-cons :
    (c : ℕ) (s : List ℕ)
    → split_at_boundary (c ∷ s) ≡ (
        if eqb c 10 && opens_with 10 s
        then some ([], after_first s)
        else longer c (split_at_boundary s))
unfolding split_at_boundary
split_at_boundary-cons c s = refl

split_at_boundary-append :
    (s t block rest : List ℕ)
    → split_at_boundary s ≡ some (block, rest)
    → split_at_boundary (s ++ t) ≡ some (block, rest ++ t)
unfolding after_first longer
split_at_boundary-append [] t block rest h = ground (arith, split_at_boundary-nil)
split_at_boundary-append (c ∷ []) t block rest h =
    ground (arith, split_at_boundary-nil, split_at_boundary-cons c [])
split_at_boundary-append (c ∷ d ∷ s) t block rest h =
    elim (Option-cases (split_at_boundary (d ∷ s))) [
      | inl last ↦
          ground (arith, split_at_boundary-cons c (d ∷ s), split_at_boundary-cons c (d ∷ s ++ t))
      | inr ((block', rest'), found) ↦ ground (
        arith,
        split_at_boundary-cons c (d ∷ s),
        split_at_boundary-cons c (d ∷ s ++ t),
        split_at_boundary-append (d ∷ s) t block' rest' found,
      )
    ]

length-split_at_boundary :
    (s block rest : List ℕ) → split_at_boundary s ≡ some (block, rest) → 2 + length rest ≤ length s
unfolding after_first longer
length-split_at_boundary [] block rest h = ground (arith, split_at_boundary-nil)
length-split_at_boundary (c ∷ []) block rest h =
    ground (arith, split_at_boundary-nil, split_at_boundary-cons c [])
length-split_at_boundary (c ∷ d ∷ s) block rest h =
    elim (Option-cases (split_at_boundary (d ∷ s))) [
      | inl last ↦ ground (arith, split_at_boundary-cons c (d ∷ s))
      | inr ((block', rest'), found) ↦ ground (
        arith,
        split_at_boundary-cons c (d ∷ s),
        length-split_at_boundary (d ∷ s) block' rest' found,
      )
    ]

-- The rounds do not matter once they are enough.
feed_loop_enough :
    (rounds more : ℕ) (s : List ℕ)
    → length s ≤ rounds
    → length s ≤ more
    → feed_loop rounds s ≡ feed_loop more s
unfolding feed_loop
feed_loop_enough zero zero s h k = refl
feed_loop_enough zero (suc more) [] h k = refl
feed_loop_enough zero (suc more) (c ∷ s) h k = absurd (omega arith)
feed_loop_enough (suc rounds) zero [] h k = refl
feed_loop_enough (suc rounds) zero (c ∷ s) h k = absurd (omega arith)
feed_loop_enough (suc rounds) (suc more) s h k = elim (Option-cases (split_at_boundary s)) [
  | inl last ↦ rw (last, feed_loop)
  | inr ((block, rest), found) ↦
      let shorter = length-split_at_boundary s block rest found in
      rw (found, feed_loop) (rw (feed_loop_enough rounds more rest (omega arith) (omega arith)))
]

-- `feed`'s loop over the whole of a buffer.
abbrev pub drained : List ℕ → List SseMessage × List ℕ
drained s = feed_loop (length s) s

drained-found :
    (s block rest : List ℕ)
    → split_at_boundary s ≡ some (block, rest)
    → drained s ≡ (push_message (parse_event_block block) (drained rest).0, (drained rest).1)
unfolding feed_loop
drained-found s block rest found =
    let shorter = length-split_at_boundary s block rest found in
    feed_loop_enough (length s) (suc (length s)) s (omega arith) (omega arith)
    ∙ rw (found, feed_loop)
        (rw (feed_loop_enough (length s) (length rest) rest (omega arith) (omega arith)))

drained_last : (s : List ℕ) → split_at_boundary s ≡ none → drained s ≡ ([], s)
unfolding feed_loop
drained_last [] last = refl
drained_last (c ∷ s) last = rw (last, feed_loop)

push_message-append :
    (message : Option SseMessage) (messages later : List SseMessage)
    → push_message message (messages ++ later) ≡ push_message message messages ++ later
unfolding push_message
push_message-append none messages later = refl
push_message-append (some message) messages later = refl

-- What a buffer gives is not changed by more text behind it.
drained-append_within :
    (rounds : ℕ) (s t : List ℕ)
    → length s ≤ rounds
    → drained (s ++ t)
      ≡ ((drained s).0 ++ (drained ((drained s).1 ++ t)).0, (drained ((drained s).1 ++ t)).1)
drained-append_within zero [] t h = rw (drained_last [] split_at_boundary-nil)
drained-append_within zero (c ∷ s) t h = absurd (omega arith)
drained-append_within (suc rounds) s t h = elim (Option-cases (split_at_boundary s)) [
  | inl last ↦ rw (drained_last s last)
  | inr ((block, rest), found) ↦
      let shorter = length-split_at_boundary s block rest found in
      rw (drained-found s block rest found) (
        rw
          (drained-found (s ++ t) block (rest ++ t) (split_at_boundary-append s t block rest found))
          (rw (drained-append_within rounds rest t (omega arith)) (
            rw (
              push_message-append (parse_event_block block) (drained rest).0
                (drained ((drained rest).1 ++ t)).0))))
]

pub drained-append :
    (s t : List ℕ)
    → drained (s ++ t)
      ≡ ((drained s).0 ++ (drained ((drained s).1 ++ t)).0, (drained ((drained s).1 ++ t)).1)
drained-append s t = drained-append_within (length s) s t (omega arith)

feed_loop-none :
    (rounds : ℕ) (s : List ℕ) → length s ≤ rounds → split_at_boundary (feed_loop rounds s).1 ≡ none
unfolding feed_loop
feed_loop-none zero [] h = split_at_boundary-nil
feed_loop-none zero (c ∷ s) h = absurd (omega arith)
feed_loop-none (suc rounds) s h = elim (Option-cases (split_at_boundary s)) [
  | inl last ↦ rw (last, feed_loop) last
  | inr ((block, rest), found) ↦
      let shorter = length-split_at_boundary s block rest found in
      rw (found, feed_loop) (feed_loop-none rounds rest (omega arith))
]

-- The rounds of the loop are enough: no complete event stays in the buffer.
pub drained-none : (s : List ℕ) → split_at_boundary (drained s).1 ≡ none
drained-none s = feed_loop-none (length s) s (omega arith)

pub drained-nil : drained [] ≡ ([], [])
drained-nil = drained_last [] split_at_boundary-nil

-- The text has no line end, such as what `JSON.stringify` writes.
abbrev pub IsLine : List ℕ → Type 0
IsLine = All (λ c. (eqb c 10 ≡ false) × (eqb c 13 ≡ false))

split_at_boundary-line :
    (s rest : List ℕ) → IsLine s → split_at_boundary (s ++ 10 ∷ 10 ∷ rest) ≡ some (s, rest)
unfolding longer after_first
split_at_boundary-line [] rest h = split_at_boundary-cons 10 (10 ∷ rest)
split_at_boundary-line (c ∷ s) rest (h, hs) =
    split_at_boundary-cons c (s ++ 10 ∷ 10 ∷ rest) ∙ rw h.0 (rw (split_at_boundary-line s rest hs))

pub drained-line :
    (s rest : List ℕ)
    → IsLine s
    → drained (s ++ 10 ∷ 10 ∷ rest)
      ≡ (push_message (parse_event_block s) (drained rest).0, (drained rest).1)
drained-line s rest h = drained-found (s ++ 10 ∷ 10 ∷ rest) s rest (split_at_boundary-line s rest h)

split_at_boundary-none :
    (s rest : List ℕ)
    → IsLine s
    → split_at_boundary rest ≡ none
    → split_at_boundary (s ++ rest) ≡ none
unfolding longer
split_at_boundary-none [] rest h last = last
split_at_boundary-none (c ∷ s) rest (h, hs) last =
    split_at_boundary-cons c (s ++ rest) ∙ rw h.0 (rw (split_at_boundary-none s rest hs last))

-- A line without its blank line waits.
pub drained-unfinished :
    (s rest : List ℕ)
    → IsLine s
    → split_at_boundary rest ≡ none
    → drained (s ++ rest) ≡ ([], s ++ rest)
drained-unfinished s rest h last = drained_last (s ++ rest) (split_at_boundary-none s rest h last)

pub split_at_boundary-lf : split_at_boundary (10 ∷ []) ≡ none
unfolding split_at_boundary
split_at_boundary-lf = refl
