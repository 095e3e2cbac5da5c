-- ===== src/Handler/Collect/Calls.antt =====
-- The calls of a collected turn.
use zai_proxy.Handler.Collect.Numbering.{assign_from-Functions}
use zai_proxy.Filter.ToolCall.{parse_function_tool_calls}
use zai_proxy.Filter.Search.Results.{parse_image_search_results, parse_search_results}
use zai_proxy.Handler.Collect.Finish.{turn_style}
use zai_proxy.Filter.Thinking.{extract_incremental_thinking, ThinkingFilter}
use zai_proxy.Filter.ToolCall.Kinds.{parse_function_tool_calls-Functions, Functions}
use zai_proxy.Filter.PromptTool.Squeeze.{Numbered}
use zai_proxy.Text.{contains, panics, bytes_eq, value, is_empty, codes, Outcome, Bytes}
use zai_proxy.Model.Types.{UpstreamData, SearchResult, ImageSearchResult, ToolCall}
use zai_proxy.Handler.Turn.{assign_tool_call_metadata}
use zai_proxy.Handler.Collect.{
  note_phase, collect_lines, collect_line, collect_event, and_then, add_pending, add_before_block,
  collect_details, collect_calls, collect_branch, collect_answer, add_results, add_reasoning,
  add_images, Style, collect_thinking, Collecting,
}
use zai_proxy.Handler.Events.{
  stops, ignored, event, edit_branch, line_of, get_edit_content, Line, branch_of, details_end,
  Branch, Reader, thinking, results, images, mcp, search_call, calls, answer,
}
use mathlib.Core.Path.{subst}
use zai_proxy.Base.{
  ℕ, suc, ◌≡◌, refl, sym, inl, inr, Bool, true, false, not, ◌&&◌, ◌||◌, List, [], ◌∷◌, arith,
  Bool-cases,
}

abbrev pub Sound : Bool → List ToolCall → Type 0
Sound has_tools tcs = Numbered 0 tcs × (has_tools ≡ false → tcs ≡ [])

-- What holds of a result, if there is one.
abbrev pub Returns : (Collecting → Type 0) → Outcome Collecting → Type 0
Returns P panics = Unit
Returns P (value s) = P s

collect_thinking-calls :
    (delta : Bytes) (s : Collecting)
    → (collect_thinking delta s).collected_tool_calls ≡ s.collected_tool_calls
unfolding collect_thinking add_reasoning
collect_thinking-calls delta s = from _ _ _
  where
    from :
        (out : Bytes) (f : ThinkingFilter) (chunks : List Bytes)
        → (add_reasoning out f (record s { reasoning_chunks = chunks })).collected_tool_calls
          ≡ s.collected_tool_calls
    from [] f chunks = refl
    from (c ∷ out) f chunks = refl

module _ (reader : Reader) (id_prefix : Bytes) where
  abbrev style : Style
  style = turn_style id_prefix

  add_results-calls :
      (n : ℕ) (rs : List SearchResult) (s : Collecting)
      → (add_results reader style n rs s).collected_tool_calls ≡ s.collected_tool_calls
  unfolding add_results
  add_results-calls n [] s = refl
  add_results-calls n (r ∷ rs) s = refl

  add_images-calls :
      (rs : List ImageSearchResult) (s : Collecting)
      → (add_images reader style rs s).collected_tool_calls ≡ s.collected_tool_calls
  unfolding add_images
  add_images-calls [] s = refl
  add_images-calls (r ∷ rs) s = refl

  module _ (has_tools : Bool) where
    abbrev Good : Collecting → Type 0
    Good s = Sound has_tools s.collected_tool_calls

    collect_calls-Sound :
        (n : ℕ) (tcs : List ToolCall) (s : Collecting)
        → is_empty id_prefix ≡ false
        → has_tools ≡ true
        → Functions tcs
        → Good s
        → Good (collect_calls reader style n tcs s)
    unfolding collect_calls assign_tool_call_metadata
    collect_calls-Sound n [] s p t f h = h
    collect_calls-Sound n (tc ∷ tcs) s p t f h =
        (assign_from-Functions (reader.fresh n) id_prefix 0 (tc ∷ tcs) p f, λ no. ground arith)

    collect_details-Sound :
        (o : Outcome Bytes) (e : Bytes) (s : Collecting)
        → Good s
        → Returns Good (collect_details reader style o e s)
    unfolding collect_details
    collect_details-Sound panics e s h = tt
    collect_details-Sound (value r) e s h = h

    collect_answer-Sound :
        (d : UpstreamData) (e : Bytes) (s : Collecting)
        → Good s
        → Returns Good (collect_answer reader style d e s)
    unfolding collect_answer
    collect_answer-Sound d e s h =
        elim (Bool-cases (bytes_eq d.phase (codes "answer") && not (is_empty d.delta_content))) [
          | inl a ↦ rw a h
          | inr na ↦ elim (Bool-cases (bytes_eq d.phase (codes "answer") && not (is_empty e))) [
            | inl b ↦ elim (Bool-cases (contains details_end e)) [
              | inl c ↦
                  rw (na, b, c)
                    (collect_details-Sound (extract_incremental_thinking s.thinking_filter e) e s h)
              | inr nc ↦ rw (na, b, nc) h
            ]
            | inr nb ↦
                elim (Bool-cases
                  (bytes_eq d.phase (codes "other") || bytes_eq d.phase (codes "tool_call"))) [
                    | inl c ↦ rw (na, nb, c) h
                    | inr nc ↦ rw (na, nb, nc) h
                  ]
          ]
        ]

    collect_branch-Sound :
        (n : ℕ) (b : Branch) (d : UpstreamData) (e : Bytes) (s : Collecting)
        → is_empty id_prefix ≡ false
        → (b ≡ calls → has_tools ≡ true)
        → Good s
        → Returns Good (collect_branch reader style n b d e s)
    unfolding collect_branch add_before_block add_pending
    collect_branch-Sound n thinking d e s p t h =
        subst (Sound has_tools) (sym (collect_thinking-calls d.delta_content s)) h
    collect_branch-Sound n results d e s p t h =
        subst (Sound has_tools)
          (sym (add_results-calls n (parse_search_results reader.read_results e) s)) h
    collect_branch-Sound n images d e s p t h =
        subst (Sound has_tools)
          (sym (
            add_images-calls (parse_image_search_results reader.read_image_texts e)
              (add_before_block reader style e s)))
          h
    collect_branch-Sound n mcp d e s p t h = h
    collect_branch-Sound n search_call d e s p t h = h
    collect_branch-Sound n calls d e s p t h =
        collect_calls-Sound n (parse_function_tool_calls reader.json e) s p (t refl)
          (parse_function_tool_calls-Functions reader.json e) h
    collect_branch-Sound n answer d e s p t h = collect_answer-Sound d e (add_pending s) h

    note_phase-Sound :
        (b : Branch) (d : UpstreamData) (s : Collecting)
        → Good s
        → Good (note_phase reader style b d s)
    unfolding note_phase
    note_phase-Sound thinking d s h = h
    note_phase-Sound results d s h = h
    note_phase-Sound images d s h = h
    note_phase-Sound mcp d s h = h
    note_phase-Sound search_call d s h = h
    note_phase-Sound calls d s h = h
    note_phase-Sound answer d s h = h

    branch_of-calls :
        (d : UpstreamData) (e : Bytes) → branch_of has_tools d e ≡ calls → has_tools ≡ true
    unfolding branch_of edit_branch
    branch_of-calls d e h = ground arith

    collect_event-Sound :
        (n : ℕ) (d : UpstreamData) (s : Collecting)
        → is_empty id_prefix ≡ false
        → Good s
        → Returns Good (collect_event reader style n has_tools d s)
    unfolding collect_event
    collect_event-Sound n d s p h =
        let e = get_edit_content reader d in
        let b = branch_of has_tools d e in
        collect_branch-Sound n b d e (note_phase reader style b d s) p (branch_of-calls d e)
          (note_phase-Sound b d s h)

    and_then-Sound :
        (o : Outcome Collecting) (behind : Collecting → Outcome Collecting)
        → ((s : Collecting) → Good s → Returns Good (behind s))
        → Returns Good o
        → Returns Good (and_then o behind)
    and_then-Sound panics behind f h = tt
    and_then-Sound (value s) behind f h = f s h

    collect_line-Sound :
        (n : ℕ) (l : Line) (behind : Collecting → Outcome Collecting) (s : Collecting)
        → is_empty id_prefix ≡ false
        → ((s : Collecting) → Good s → Returns Good (behind s))
        → Good s
        → Returns Good (collect_line reader style n has_tools l behind s)
    unfolding collect_line
    collect_line-Sound n ignored behind s p f h = f s h
    collect_line-Sound n stops behind s p f h = h
    collect_line-Sound n (event d) behind s p f h =
        and_then-Sound (collect_event reader style n has_tools d s) behind f
          (collect_event-Sound n d s p h)

    pub collect_lines-Sound :
        (n : ℕ) (lines : List Bytes) (s : Collecting)
        → is_empty id_prefix ≡ false
        → Good s
        → Returns Good (collect_lines reader style n has_tools lines s)
    unfolding collect_lines
    collect_lines-Sound n [] s p h = h
    collect_lines-Sound n (line ∷ lines) s p h =
        collect_line-Sound n (line_of reader line)
          (collect_lines reader style (suc n) has_tools lines) s p
          (λ s' h'. collect_lines-Sound (suc n) lines s' p h') h
