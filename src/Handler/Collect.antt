-- ===== src/Handler/Collect.antt =====
-- The loop that reads a whole turn: `collectAssistantTurn` of internal/handler/assistant_turn.go,
-- which `handleNonStreamResponse` of chat.go and `handleAnthropicNonStream` of anthropic.go repeat
-- with the differences that a `Style` names. The scanner is a list of lines, with whether it failed
-- behind them. `ExtractIncrementalThinking` may panic, so the loop gives an `Outcome`.
pub mod Finish
pub mod Turns
pub mod Numbering
pub mod Calls
pub mod Agreement
use zai_proxy.Filter.ToolCall.{parse_function_tool_calls}
use zai_proxy.Filter.Search.Sources.{get_search_results_markdown}
use zai_proxy.Filter.PromptTool.Extract.{two_newlines}
use zai_proxy.Model.Types.{UpstreamData, ImageSearchResult, ToolCall, SearchResult}
use zai_proxy.Filter.Search.Results.{
  parse_search_results, parse_image_search_results, format_image_search_results,
  extract_text_before_glm_block,
}
use zai_proxy.Text.{is_empty, panics, codes, value, contains, Outcome, bytes_eq, Bytes}
use zai_proxy.Handler.Events.{
  Line, answer, calls, search_call, mcp, images, results, ignored, stops, event, Reader,
  details_end, thinking, branch_of, Branch, line_of, get_edit_content, enter_phase, after_details,
  is_new_round, enter_thinking,
}
use zai_proxy.Filter.Thinking.{
  extract_incremental_thinking, process_thinking, ThinkingFilter, new_thinking_filter,
}
use zai_proxy.Filter.Search.Reference.{
  add_search_results, store_results, new_search_ref_filter, SearchRefFilter,
}
use zai_proxy.Base.{
  ℕ, suc, Bool, true, false, not, ◌&&◌, ◌||◌, List, [], ◌∷◌, ◌++◌, map, ltb, if◌then◌else◌,
}

-- Whether the results of searches are shown, and the identifiers that calls get: those of an event,
-- and those that stand in the text.
pub record Style : Type 0 where
  pub shows_results : Bool
  pub name_calls : (ℕ → Bytes) → List ToolCall → List ToolCall
  pub name_prompt_calls : (ℕ → Bytes) → List ToolCall → List ToolCall

-- The variables of the loop.
pub record Collecting : Type 0 where
  pub chunks : List Bytes
  pub reasoning_chunks : List Bytes
  pub thinking_filter : ThinkingFilter
  pub search_ref_filter : SearchRefFilter
  pub has_thinking : Bool
  pub pending_sources_markdown : Bytes
  pub pending_image_search_markdown : Bytes
  pub collected_tool_calls : List ToolCall

abbrev pub nothing_collected : Collecting
nothing_collected = record {
  chunks = [];
  reasoning_chunks = [];
  thinking_filter = new_thinking_filter;
  search_ref_filter = new_search_ref_filter;
  has_thinking = false;
  pending_sources_markdown = [];
  pending_image_search_markdown = [];
  collected_tool_calls = [];
}

-- `append`, of a text that is not empty.
unfoldable pub add_text : Bytes → List Bytes → List Bytes
add_text [] texts = texts
add_text (c ∷ s) texts = texts ++ (c ∷ s) ∷ []

-- The reasoning that a call of `ProcessThinking` gave.
unfoldable pub add_reasoning : Bytes → ThinkingFilter → Collecting → Collecting
add_reasoning [] f s = record s { thinking_filter = f; has_thinking = true }
add_reasoning (c ∷ out) f s = record s {
  thinking_filter = record f { last_output_chunk = c ∷ out };
  has_thinking = true;
  reasoning_chunks = s.reasoning_chunks ++ (c ∷ out) ∷ [];
}

-- The line between two rounds of thinking.
unfoldable pub round_break : ThinkingFilter → List Bytes
unfolding is_new_round
round_break f =
    if is_new_round f && ltb 1 (suc f.thinking_round_count) then two_newlines ∷ [] else []

unfoldable pub collect_thinking : Bytes → Collecting → Collecting
unfolding round_break enter_thinking process_thinking add_reasoning
collect_thinking delta_content s =
    let (out, f) = process_thinking (enter_thinking s.thinking_filter) delta_content in
    add_reasoning out f
      (record s { reasoning_chunks = s.reasoning_chunks ++ round_break s.thinking_filter })

-- The sources and images that wait for an answer.
unfoldable pub add_pending : Collecting → Collecting
unfolding add_text
add_pending s = record s {
  reasoning_chunks =
      if s.has_thinking
      then add_text s.pending_sources_markdown s.reasoning_chunks
      else s.reasoning_chunks;
  chunks =
      add_text s.pending_image_search_markdown
        (if s.has_thinking then s.chunks else add_text s.pending_sources_markdown s.chunks);
  pending_sources_markdown = [];
  pending_image_search_markdown = [];
}

abbrev pub and_then : Outcome Collecting → (Collecting → Outcome Collecting) → Outcome Collecting
and_then panics behind = panics
and_then (value s) behind = behind s

-- The results of the map, in the order of a range.
abbrev pub results_of : SearchRefFilter → List SearchResult
results_of f = map (λ entry. entry.1) f.search_results

module _ (reader : Reader) (style : Style) where
  unfoldable pub add_results : ℕ → List SearchResult → Collecting → Collecting
  unfolding store_results get_search_results_markdown
  add_results n [] s = s
  add_results n (r ∷ rs) s =
      let f = add_search_results s.search_ref_filter (r ∷ rs) in
      record s {
        search_ref_filter = f;
        pending_sources_markdown =
            if style.shows_results
            then get_search_results_markdown (reader.range n (results_of f))
            else s.pending_sources_markdown;
      }

  unfoldable pub add_images : List ImageSearchResult → Collecting → Collecting
  unfolding format_image_search_results
  add_images [] s = s
  add_images (r ∷ rs) s =
      if style.shows_results
      then record s { pending_image_search_markdown = format_image_search_results (r ∷ rs) }
      else s

  unfoldable pub add_before_block : Bytes → Collecting → Collecting
  unfolding add_text extract_text_before_glm_block
  add_before_block edit_content s = record s {
    chunks = add_text (extract_text_before_glm_block edit_content) s.chunks;
  }

  -- The calls of the last event that has any stay.
  unfoldable pub collect_calls : ℕ → List ToolCall → Collecting → Collecting
  collect_calls n [] s = s
  collect_calls n (tc ∷ tcs) s = record s {
    collected_tool_calls = style.name_calls (reader.fresh n) (tc ∷ tcs);
  }

  -- The reasoning and the text of an answer whose edit holds `</details>`.
  unfoldable pub collect_details : Outcome Bytes → Bytes → Collecting → Outcome Collecting
  unfolding add_text after_details
  collect_details panics edit_content s = panics
  collect_details (value reasoning_content) edit_content s = value (record s {
    reasoning_chunks = add_text reasoning_content s.reasoning_chunks;
    chunks = add_text (after_details edit_content) s.chunks;
  })

  -- An event of the last kind, behind what was pending.
  unfoldable pub collect_answer : UpstreamData → Bytes → Collecting → Outcome Collecting
  unfolding bytes_eq contains add_text collect_details extract_incremental_thinking
  collect_answer d edit_content s =
      if bytes_eq d.phase (codes "answer") && not (is_empty d.delta_content)
      then value (record s { chunks = add_text d.delta_content s.chunks })
      else if bytes_eq d.phase (codes "answer") && not (is_empty edit_content)
      then if contains details_end edit_content
        then collect_details (extract_incremental_thinking s.thinking_filter edit_content)
            edit_content s
        else value s
      else if bytes_eq d.phase (codes "other") || bytes_eq d.phase (codes "tool_call")
      then value (record s { chunks = add_text edit_content s.chunks })
      else value s

  -- The branch of an event, which is line `n`.
  unfoldable pub collect_branch :
      ℕ → Branch → UpstreamData → Bytes → Collecting → Outcome Collecting
  unfolding collect_thinking add_results add_images add_before_block collect_calls add_pending
      collect_answer parse_search_results parse_image_search_results parse_function_tool_calls
  collect_branch n thinking d edit_content s = value (collect_thinking d.delta_content s)
  collect_branch n results d edit_content s =
      value (add_results n (parse_search_results reader.read_results edit_content) s)
  collect_branch n images d edit_content s = value (
      add_images (parse_image_search_results reader.read_image_texts edit_content)
        (add_before_block edit_content s))
  collect_branch n mcp d edit_content s = value (add_before_block edit_content s)
  collect_branch n search_call d edit_content s = value s
  collect_branch n calls d edit_content s =
      value (collect_calls n (parse_function_tool_calls reader.json edit_content) s)
  collect_branch n answer d edit_content s = collect_answer d edit_content (add_pending s)

  -- `LastPhase` behind the thinking branch.
  unfoldable pub note_phase : Branch → UpstreamData → Collecting → Collecting
  unfolding enter_phase
  note_phase thinking d s = s
  note_phase b d s = record s { thinking_filter = enter_phase d.phase s.thinking_filter }

  unfoldable pub collect_event : ℕ → Bool → UpstreamData → Collecting → Outcome Collecting
  unfolding get_edit_content branch_of note_phase collect_branch
  collect_event n has_tools d s =
      let edit_content = get_edit_content reader d in
      let b = branch_of has_tools d edit_content in
      collect_branch n b d edit_content (note_phase b d s)

  -- What a line does, before the lines behind it.
  unfoldable pub collect_line :
      ℕ → Bool → Line → (Collecting → Outcome Collecting) → Collecting → Outcome Collecting
  unfolding collect_event
  collect_line n has_tools ignored behind s = behind s
  collect_line n has_tools stops behind s = value s
  collect_line n has_tools (event d) behind s = and_then (collect_event n has_tools d s) behind

  -- The loop from line `n` on.
  unfoldable pub collect_lines : ℕ → Bool → List Bytes → Collecting → Outcome Collecting
  unfolding line_of collect_line
  collect_lines n has_tools [] s = value s
  collect_lines n has_tools (line ∷ lines) s =
      collect_line n has_tools (line_of reader line) (collect_lines (suc n) has_tools lines) s
