-- ===== src/Providers/Anthropic/Stream/Calls.antt =====
-- Tool calls in the stream of packages/core/src/providers/anthropic.ts.
use text.Mathlib.TextLemmas
use omni_model.Prelude.{
  ℕ, suc, ◌≡◌, sym, ap, subst, String, Bool, true, none, some, List, [], ◌∷◌, ◌++◌, eqb, arith,
  length, length-append,
}
use omni_model.Prelude.Text.{◌<>◌}
use omni_model.Providers.Anthropic.Events.{StreamState, get_index, call_delta}
use omni_model.Providers.Anthropic.Stream.{step, chunk}
use omni_model.Providers.Anthropic.Stream.Message.{
  texts, json_event, call_start, json_events, AssembledCall, Assembled, assemble,
}
use omni_model.Providers.Anthropic.Stream.Steps.{set_index-new}
use omni_model.Providers.Anthropic.Stream.Runs.{
  add_at-new, add_at-last, marks, At, Runs, Runs-none, Runs-append, Runs-step,
}

abbrev pub with_call : Assembled → List AssembledCall → AssembledCall → Assembled
with_call a calls c = record a { calls = calls ++ c ∷ [] }

pub counted-next :
    {n : ℕ}
    → (calls : List AssembledCall) (c : AssembledCall) → n ≡ length calls
    → suc n ≡ length (calls ++ c ∷ [])
counted-next calls c counted = omega (arith, length-append calls (c ∷ []))

pub eqb_same : (i : ℕ) → eqb i i ≡ true
eqb_same i = ground arith

-- The state after a tool call's block has begun.
abbrev pub begun : ℕ → StreamState → StreamState
begun i s = record s {
  tool_index_by_block = s.tool_index_by_block ++ (i, s.next_tool_index) ∷ [];
  next_tool_index = suc s.next_tool_index;
}

module _ (created : ℕ) (model : String) (include_usage : Bool) where
  pub call_start-Runs :
      (i : ℕ) (id name : String) (s : StreamState) (a : Assembled)
      → At i s a.calls
      → Runs created model include_usage
          (call_start i id name ∷ [])
          s
          a
          (begun i s)
          (with_call a a.calls (record { id = id; name = name; arguments = "" }))
  unfolding step assemble chunk
  call_start-Runs i id name s a at =
      Runs-step created model include_usage (call_start i id name) s (begun i s)
        (chunk created model s (call_delta s.next_tool_index (some id) (some name) "") none ∷ []) a
        (with_call a a.calls (record { id = id; name = name; arguments = "" }))
        (rw (
          set_index-new i s.next_tool_index s.tool_blocks_with_args s.tool_blocks_flushed
            s.tool_index_by_block at.known))
        (rw (TextLemmas.append-nil a.content) (
          rw at.counted (
            ap (λ (cs : List AssembledCall). record a { calls = cs })
              (add_at-new
                (record { index = length a.calls; id = some id; name = some name; arguments = "" })
                a.calls))))

  json_event-Runs :
      (i index : ℕ) (json : String) (s : StreamState) (a : Assembled) (calls : List AssembledCall)
      (c : AssembledCall)
      → get_index i s.tool_index_by_block ≡ some index
      → index ≡ length calls
      → Runs created model include_usage
          (json_event i json ∷ [])
          s
          (with_call a calls c)
          (record s { tool_blocks_with_args = i ∷ s.tool_blocks_with_args })
          (with_call a calls (record c { arguments = c.arguments <> json }))
  unfolding step assemble chunk
  json_event-Runs i index json s a calls c found counted =
      Runs-step created model include_usage (json_event i json) s
        (record s { tool_blocks_with_args = i ∷ s.tool_blocks_with_args })
        (chunk created model s (call_delta index none none json) none ∷ []) (with_call a calls c)
        (with_call a calls (record c { arguments = c.arguments <> json })) (rw found)
        (rw (TextLemmas.append-nil a.content) (
          rw counted (
            ap (λ (cs : List AssembledCall). record a { calls = cs })
              (add_at-last
                (record { index = length calls; id = none; name = none; arguments = json }) calls
                c))))

  pub json_events-Runs :
      (i index : ℕ) (deltas : List String) (s : StreamState) (a : Assembled)
      (calls : List AssembledCall) (c : AssembledCall)
      → get_index i s.tool_index_by_block ≡ some index
      → index ≡ length calls
      → Runs created model include_usage
          (json_events i deltas)
          s
          (with_call a calls c)
          (record s { tool_blocks_with_args = marks deltas i s.tool_blocks_with_args })
          (with_call a calls (record c { arguments = c.arguments <> texts deltas }))
  json_events-Runs i index [] s a calls c found counted =
      subst
        (λ (t : String).
          Runs created model include_usage [] s (with_call a calls c) s
            (with_call a calls (record c { arguments = t })))
        (sym (TextLemmas.append-nil c.arguments))
        (Runs-none created model include_usage s (with_call a calls c))
  json_events-Runs i index (json ∷ deltas) s a calls c found counted =
      let s' : StreamState = record s { tool_blocks_with_args = i ∷ s.tool_blocks_with_args } in
      let c' : AssembledCall = record c { arguments = c.arguments <> json } in
      subst
        (λ (t : String).
          Runs created model include_usage (json_events i (json ∷ deltas)) s (with_call a calls c)
            (record s { tool_blocks_with_args = marks (json ∷ deltas) i s.tool_blocks_with_args })
            (with_call a calls (record c { arguments = t })))
        (TextLemmas.append_assoc c.arguments json (texts deltas))
        (Runs-append created model include_usage (json_event i json ∷ []) (json_events i deltas) s
          s' (record s' { tool_blocks_with_args = marks deltas i s'.tool_blocks_with_args })
          (with_call a calls c) (with_call a calls c')
          (with_call a calls (record c' { arguments = c'.arguments <> texts deltas }))
          (json_event-Runs i index json s a calls c found counted)
          (json_events-Runs i index deltas s' a calls c' found counted))
