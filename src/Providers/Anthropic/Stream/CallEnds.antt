-- ===== src/Providers/Anthropic/Stream/CallEnds.antt =====
-- The ends of tool calls in the stream of packages/core/src/providers/anthropic.ts.
use text.Mathlib.TextLemmas
use omni_model.Prelude.{
  ℕ, suc, ◌≡◌, refl, ap, ◌∙◌, subst, String, Bool, true, none, List, [], ◌∷◌, ◌++◌, arith, length,
}
use omni_model.Prelude.Text.{◌<>◌}
use omni_model.Providers.Anthropic.Events.{StreamState, has_block, call_delta}
use omni_model.Providers.Anthropic.Stream.{step, flush_empty_tool_args, chunk}
use omni_model.Providers.Anthropic.Stream.Message.{
  texts, stop_event, call_start, json_events, arguments_text, AssembledCall, Assembled, assemble,
}
use omni_model.Providers.Anthropic.Stream.Steps.{
  Known, Known-flushed, get_index-new, Known-new, flush-other,
}
use omni_model.Providers.Anthropic.Stream.Runs.{
  add_at-last, has_block-Below, Below-next, marks, Below-marks, has_block-marks, Known-marks, At,
  Runs, Runs-append, Runs-step, Brings,
}
use omni_model.Providers.Anthropic.Stream.Calls.{
  with_call, begun, eqb_same, counted-next, call_start-Runs, json_events-Runs,
}

-- The state after a call that had deltas.
abbrev after_deltas : ℕ → String → List String → StreamState → StreamState
after_deltas i delta deltas s = record (begun i s) {
  tool_blocks_with_args = marks (delta ∷ deltas) i s.tool_blocks_with_args;
}

module _ (created : ℕ) (model : String) (include_usage : Bool) where
  -- The stop of a call that had no delta gives `{}`.
  stop_empty-Runs :
      (i : ℕ) (s : StreamState) (a : Assembled) (calls : List AssembledCall) (c : AssembledCall)
      → At i s calls
      → c.arguments ≡ ""
      → Runs created model include_usage
          (stop_event i ∷ [])
          (begun i s)
          (with_call a calls c)
          (record (begun i s) { tool_blocks_flushed = i ∷ s.tool_blocks_flushed })
          (with_call a calls (record c { arguments = "{}" }))
  unfolding step assemble chunk flush_empty_tool_args
  stop_empty-Runs i s a calls c at empty =
      Runs-step created model include_usage (stop_event i) (begun i s)
        (record (begun i s) { tool_blocks_flushed = i ∷ s.tool_blocks_flushed })
        (chunk created model (begun i s) (call_delta s.next_tool_index none none "{}") none ∷ [])
        (with_call a calls c) (with_call a calls (record c { arguments = "{}" }))
        (rw
          (flush-other created model i s.tool_index_by_block ((i, s.next_tool_index) ∷ [])
            (begun i s) s.tool_blocks_with_args s.tool_blocks_flushed at.known)
          (rw (eqb_same i) (
            rw (has_block-Below i s.tool_blocks_with_args at.with_args_below)
              (rw (has_block-Below i s.tool_blocks_flushed at.flushed_below)))))
        (rw (TextLemmas.append-nil a.content) (
          rw at.counted (
            ap (λ (cs : List AssembledCall). record a { calls = cs })
              (add_at-last
                  (record { index = length calls; id = none; name = none; arguments = "{}" }) calls
                  c
                ∙ ap (λ (t : String). calls ++ record c { arguments = t <> "{}" } ∷ []) empty))))

  -- The stop of a call that had one gives nothing.
  stop_full-Runs :
      (i : ℕ) (js : List ℕ) (s : StreamState) (a : Assembled)
      → Known i s.tool_blocks_with_args s.tool_blocks_flushed s.tool_index_by_block
      → has_block i js ≡ true
      → Runs created model include_usage
          (stop_event i ∷ [])
          (record (begun i s) { tool_blocks_with_args = js })
          a
          (record (begun i s) { tool_blocks_with_args = js })
          a
  unfolding step assemble chunk flush_empty_tool_args
  stop_full-Runs i js s a known marked =
      Runs-step created model include_usage (stop_event i)
        (record (begun i s) { tool_blocks_with_args = js })
        (record (begun i s) { tool_blocks_with_args = js }) [] a a
        (rw
          (flush-other created model i s.tool_index_by_block ((i, s.next_tool_index) ∷ [])
            (record (begun i s) { tool_blocks_with_args = js }) s.tool_blocks_with_args
            s.tool_blocks_flushed known)
          (rw (eqb_same i) (rw marked)))
        refl

  -- A call with no delta of its input.
  empty_call-Brings :
      (i : ℕ) (id name : String) (s : StreamState) (a : Assembled)
      → At i s a.calls
      → Brings created model include_usage
          (call_start i id name ∷ stop_event i ∷ [])
          s
          a
          (suc i)
          (with_call a a.calls (record { id = id; name = name; arguments = "{}" }))
  empty_call-Brings i id name s a at =
      let after : StreamState = record (begun i s) {
        tool_blocks_flushed = i ∷ s.tool_blocks_flushed;
      } in
      let c : AssembledCall = record { id = id; name = name; arguments = "" } in
      let known =
        Known-flushed i i s.tool_blocks_with_args s.tool_blocks_flushed s.tool_index_by_block
          at.known in
      record {
        after = after;
        runs =
            Runs-append created model include_usage (call_start i id name ∷ []) (stop_event i ∷ [])
              s (begun i s) after a (with_call a a.calls c)
              (with_call a a.calls (record c { arguments = "{}" }))
              (call_start-Runs created model include_usage i id name s a at)
              (stop_empty-Runs i s a a.calls c at refl);
        at = record {
          known =
              Known-new i s.next_tool_index s.tool_blocks_with_args (i ∷ s.tool_blocks_flushed)
                s.tool_index_by_block known (ground arith);
          with_args_below = Below-next i s.tool_blocks_with_args at.with_args_below;
          flushed_below = (omega arith, Below-next i s.tool_blocks_flushed at.flushed_below);
          counted = counted-next a.calls _ at.counted;
        };
        tokens = (refl, refl, refl);
      }

  full_call-Runs :
      (i : ℕ) (id name delta : String) (deltas : List String) (s : StreamState) (a : Assembled)
      → At i s a.calls
      → Runs created model include_usage
          (call_start i id name ∷ (json_events i (delta ∷ deltas) ++ stop_event i ∷ []))
          s
          a
          (after_deltas i delta deltas s)
          (with_call a a.calls
            (record { id = id; name = name; arguments = "" <> texts (delta ∷ deltas) }))
  full_call-Runs i id name delta deltas s a at =
      let after : StreamState = after_deltas i delta deltas s in
      let c : AssembledCall = record { id = id; name = name; arguments = "" } in
      let done : Assembled =
        with_call a a.calls (record c { arguments = "" <> texts (delta ∷ deltas) }) in
      Runs-append created model include_usage (call_start i id name ∷ [])
        (json_events i (delta ∷ deltas) ++ stop_event i ∷ []) s (begun i s) after a
        (with_call a a.calls c) done (call_start-Runs created model include_usage i id name s a at)
        (Runs-append created model include_usage (json_events i (delta ∷ deltas))
          (stop_event i ∷ []) (begun i s) after after (with_call a a.calls c) done done
          (json_events-Runs created model include_usage i s.next_tool_index (delta ∷ deltas)
            (begun i s) a a.calls c
            (get_index-new i s.next_tool_index s.tool_blocks_with_args s.tool_blocks_flushed
              s.tool_index_by_block at.known)
            at.counted)
          (stop_full-Runs i (marks (delta ∷ deltas) i s.tool_blocks_with_args) s done at.known
            (has_block-marks deltas i (i ∷ s.tool_blocks_with_args) (ground arith))))

  full_call-At :
      (i : ℕ) (delta : String) (deltas : List String) (s : StreamState) (calls : List AssembledCall)
      (c : AssembledCall)
      → At i s calls
      → At (suc i) (after_deltas i delta deltas s) (calls ++ c ∷ [])
  full_call-At i delta deltas s calls c at =
      let js : List ℕ = marks (delta ∷ deltas) i s.tool_blocks_with_args in
      let marked : has_block i js ≡ true =
        has_block-marks deltas i (i ∷ s.tool_blocks_with_args) (ground arith) in
      record {
        known =
            Known-new i s.next_tool_index js s.tool_blocks_flushed s.tool_index_by_block
              (Known-marks (delta ∷ deltas) i i s.tool_blocks_with_args s.tool_blocks_flushed
                s.tool_index_by_block at.known)
              (ground arith);
        with_args_below =
            Below-marks (delta ∷ deltas) i s.tool_blocks_with_args
              (Below-next i s.tool_blocks_with_args at.with_args_below);
        flushed_below = Below-next i s.tool_blocks_flushed at.flushed_below;
        counted = counted-next calls c at.counted;
      }

  -- A call with deltas of its input.
  full_call-Brings :
      (i : ℕ) (id name delta : String) (deltas : List String) (s : StreamState) (a : Assembled)
      → At i s a.calls
      → Brings created model include_usage
          (call_start i id name ∷ (json_events i (delta ∷ deltas) ++ stop_event i ∷ []))
          s
          a
          (suc i)
          (with_call a a.calls
            (record { id = id; name = name; arguments = texts (delta ∷ deltas) }))
  full_call-Brings i id name delta deltas s a at = record {
    after = after_deltas i delta deltas s;
    runs =
        subst
          (λ (t : String).
            Runs created model include_usage
              (call_start i id name ∷ (json_events i (delta ∷ deltas) ++ stop_event i ∷ [])) s a
              (after_deltas i delta deltas s)
              (with_call a a.calls (record { id = id; name = name; arguments = t })))
          (TextLemmas.nil-append (texts (delta ∷ deltas)))
          (full_call-Runs i id name delta deltas s a at);
    at = full_call-At i delta deltas s a.calls _ at;
    tokens = (refl, refl, refl);
  }

  pub call-Brings :
      (i : ℕ) (id name : String) (deltas : List String) (s : StreamState) (a : Assembled)
      → At i s a.calls
      → Brings created model include_usage
          (call_start i id name ∷ (json_events i deltas ++ stop_event i ∷ []))
          s
          a
          (suc i)
          (with_call a a.calls (record { id = id; name = name; arguments = arguments_text deltas }))
  call-Brings i id name [] s a at = empty_call-Brings i id name s a at
  call-Brings i id name (delta ∷ deltas) s a at = full_call-Brings i id name delta deltas s a at
