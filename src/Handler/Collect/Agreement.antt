-- ===== src/Handler/Collect/Agreement.antt =====
-- The non-streaming handler of chat.go against the collected turn and its writer.
use zai_proxy.Handler.Collect.Numbering.{assign_from-Numbered}
use zai_proxy.Handler.Collect.Finish.{
  respond_to, chat_response, collect_assistant_turn, collect_assistant_turn,
}
use zai_proxy.Filter.PromptTool.Extract.{extract_prompt_tool_calls}
use zai_proxy.Filter.ToolCall.{parse_function_tool_calls}
use zai_proxy.Filter.Search.Results.{parse_image_search_results, parse_search_results}
use zai_proxy.Handler.OpenaiTurn.{stop_reason, write_openai_non_stream_turn, ChatCompletionResponse}
use zai_proxy.Handler.Collect.{
  nothing_collected, collect_line, note_phase, and_then, collect_event, collect_lines,
  collect_answer, Collecting, add_before_block, collect_calls, collect_branch, add_results,
  add_images,
}
use zai_proxy.Filter.ToolCall.Kinds.{parse_function_tool_calls-Functions, Functions}
use zai_proxy.Filter.PromptTool.Squeeze.{extract_prompt_tool_calls-Extracted, Extracted}
use zai_proxy.Model.Types.{UpstreamData, SearchResult, ImageSearchResult, ToolCall}
use zai_proxy.Handler.Collect.Finish.{
  read_turn, handle_non_stream_response, process_whole, with_prompt_calls, take_prompt_calls,
  finish_turn, chat_style, turn_style, number_function_calls,
}
use zai_proxy.Text.{concat, Outcome, codes, Bytes}
use zai_proxy.Handler.Turn.{assign_tool_call_metadata, AssistantTurn, assign_from}
use zai_proxy.Handler.Events.{
  branch_of, line_of, get_edit_content, Branch, Reader, thinking, results, images, mcp, search_call,
  calls, answer,
}
use zai_proxy.Text.{value, panics}
use zai_proxy.Handler.Events.{Line, ignored, stops, event}
use zai_proxy.Base.{
  arith, length, ltb, true, Bool, none, some, Option, ℕ, suc, ◌≡◌, refl, ap, false, List, [], ◌∷◌,
}

abbrev pub ids : Bytes
ids = codes "call_"

-- Calls of the parsers' kind get the same by both loops.
assign_from-number_function_calls :
    (draw : ℕ → Bytes) (i : ℕ) (tcs : List ToolCall)
    → Functions tcs
    → assign_from draw ids i tcs ≡ number_function_calls i draw tcs
unfolding assign_from number_function_calls
assign_from-number_function_calls draw i [] h = refl
assign_from-number_function_calls draw i (tc ∷ tcs) h =
    rw (h.0, assign_from-number_function_calls draw (suc i) tcs h.1)

-- The response to a turn of `collectAssistantTurn`; the scanner's error gives none.
abbrev pub answer_turn :
    Bytes → ℕ → Bytes → Outcome (Option AssistantTurn) → Outcome (Option ChatCompletionResponse)
answer_turn completion_id created model_name panics = panics
answer_turn completion_id created model_name (value none) = value none
answer_turn completion_id created model_name (value (some turn)) =
    value (some (write_openai_non_stream_turn completion_id created model_name turn))

abbrev pub succeeds : Outcome ChatCompletionResponse → Outcome (Option ChatCompletionResponse)
succeeds panics = panics
succeeds (value response) = value (some response)

module _ (reader : Reader) where
  collect_calls-styles :
      (n : ℕ) (tcs : List ToolCall) (s : Collecting)
      → Functions tcs
      → collect_calls reader (turn_style ids) n tcs s ≡ collect_calls reader chat_style n tcs s
  unfolding collect_calls assign_tool_call_metadata
  collect_calls-styles n [] s h = refl
  collect_calls-styles n (tc ∷ tcs) s h =
      ap (λ cs. record s { collected_tool_calls = cs })
        (assign_from-number_function_calls (reader.fresh n) 0 (tc ∷ tcs) h)

  add_results-styles :
      (n : ℕ) (rs : List SearchResult) (s : Collecting)
      → add_results reader (turn_style ids) n rs s ≡ add_results reader chat_style n rs s
  unfolding add_results
  add_results-styles n [] s = refl
  add_results-styles n (r ∷ rs) s = refl

  add_images-styles :
      (rs : List ImageSearchResult) (s : Collecting)
      → add_images reader (turn_style ids) rs s ≡ add_images reader chat_style rs s
  unfolding add_images
  add_images-styles [] s = refl
  add_images-styles (r ∷ rs) s = refl

  collect_branch-styles :
      (n : ℕ) (b : Branch) (d : UpstreamData) (e : Bytes) (s : Collecting)
      → collect_branch reader (turn_style ids) n b d e s
        ≡ collect_branch reader chat_style n b d e s
  unfolding collect_branch add_before_block collect_answer
  collect_branch-styles n thinking d e s = refl
  collect_branch-styles n results d e s =
      ap value (add_results-styles n (parse_search_results reader.read_results e) s)
  collect_branch-styles n images d e s = ap value (
      add_images-styles (parse_image_search_results reader.read_image_texts e)
        (add_before_block reader chat_style e s))
  collect_branch-styles n mcp d e s = refl
  collect_branch-styles n search_call d e s = refl
  collect_branch-styles n calls d e s = ap value (
      collect_calls-styles n (parse_function_tool_calls reader.json e) s
        (parse_function_tool_calls-Functions reader.json e))
  collect_branch-styles n answer d e s = refl

  collect_event-styles :
      (n : ℕ) (has_tools : Bool) (d : UpstreamData) (s : Collecting)
      → collect_event reader (turn_style ids) n has_tools d s
        ≡ collect_event reader chat_style n has_tools d s
  unfolding collect_event note_phase
  collect_event-styles n has_tools d s =
      let e = get_edit_content reader d in
      let b = branch_of has_tools d e in
      collect_branch-styles n b d e (note_phase reader chat_style b d s)

  and_then-ext :
      (o : Outcome Collecting) (behind behind' : Collecting → Outcome Collecting)
      → ((s : Collecting) → behind s ≡ behind' s)
      → and_then o behind ≡ and_then o behind'
  and_then-ext panics behind behind' h = refl
  and_then-ext (value s) behind behind' h = h s

  collect_line-styles :
      (n : ℕ) (has_tools : Bool) (l : Line) (behind behind' : Collecting → Outcome Collecting)
      (s : Collecting)
      → ((s : Collecting) → behind s ≡ behind' s)
      → collect_line reader (turn_style ids) n has_tools l behind s
        ≡ collect_line reader chat_style n has_tools l behind' s
  unfolding collect_line
  collect_line-styles n has_tools ignored behind behind' s h = h s
  collect_line-styles n has_tools stops behind behind' s h = refl
  collect_line-styles n has_tools (event d) behind behind' s h =
      rw (collect_event-styles n has_tools d s)
        (and_then-ext (collect_event reader chat_style n has_tools d s) behind behind' h)

  collect_lines-styles :
      (n : ℕ) (has_tools : Bool) (lines : List Bytes) (s : Collecting)
      → collect_lines reader (turn_style ids) n has_tools lines s
        ≡ collect_lines reader chat_style n has_tools lines s
  unfolding collect_lines
  collect_lines-styles n has_tools [] s = refl
  collect_lines-styles n has_tools (line ∷ lines) s =
      collect_line-styles n has_tools (line_of reader line) _ _ s
        (collect_lines-styles (suc n) has_tools lines)

  take_prompt_calls-styles :
      (draw : ℕ → Bytes) (content : Bytes) (p : Bytes × List ToolCall)
      → Extracted reader.json reader.quote draw content p
      → take_prompt_calls reader (turn_style ids) draw content p
        ≡ take_prompt_calls reader chat_style draw content p
  unfolding take_prompt_calls assign_tool_call_metadata
  take_prompt_calls-styles draw content (cleaned, []) h = refl
  take_prompt_calls-styles draw content (cleaned, tc ∷ tcs) h =
      ap (λ cs. (cleaned, cs)) (assign_from-Numbered draw ids 0 (tc ∷ tcs) h.1)

  with_prompt_calls-styles :
      (draw : ℕ → Bytes) (has_tools : Bool) (content : Bytes) (tcs : List ToolCall)
      → with_prompt_calls reader (turn_style ids) draw has_tools content tcs
        ≡ with_prompt_calls reader chat_style draw has_tools content tcs
  unfolding with_prompt_calls
  with_prompt_calls-styles draw false content tcs = refl
  with_prompt_calls-styles draw true content (tc ∷ tcs) = refl
  with_prompt_calls-styles draw true content [] =
      take_prompt_calls-styles draw content
        (extract_prompt_tool_calls reader.json reader.quote draw content)
        (extract_prompt_tool_calls-Extracted reader.json reader.quote draw content)

  finish_turn-styles :
      (draw : ℕ → Bytes) (has_tools : Bool) (s : Collecting)
      → finish_turn reader (turn_style ids) draw has_tools s
        ≡ finish_turn reader chat_style draw has_tools s
  unfolding finish_turn
  finish_turn-styles draw has_tools s =
      let p = process_whole s.search_ref_filter (concat s.chunks) in
      let q = process_whole p.1 (concat s.reasoning_chunks) in
      ap (λ r. record { content = r.0; reasoning_content = q.0; tool_calls = r.1 })
        (with_prompt_calls-styles draw has_tools p.0 s.collected_tool_calls)

chat_response-write_openai_non_stream_turn :
    (completion_id : Bytes) (created : ℕ) (model_name content thought : Bytes) (tcs : List ToolCall)
    → let turn : AssistantTurn = record {
      content = content;
      reasoning_content = thought;
      tool_calls = tcs;
    } in
      chat_response completion_id created model_name turn
      ≡ write_openai_non_stream_turn completion_id created model_name turn
unfolding chat_response write_openai_non_stream_turn stop_reason
chat_response-write_openai_non_stream_turn completion_id created model_name content thought [] =
    refl
chat_response-write_openai_non_stream_turn completion_id created model_name content thought
      (tc ∷ tcs) =
    let more : ltb 0 (length (tc ∷ tcs)) ≡ true = ground arith in rw more

module _ (reader : Reader) (completion_id : Bytes) (created : ℕ) (model_name : Bytes) where
  respond_to-styles :
      (draw : ℕ → Bytes) (has_tools : Bool) (o : Outcome Collecting)
      → succeeds (
          respond_to reader chat_style draw has_tools
            (λ thought turn. chat_response completion_id created model_name turn)
            o)
        ≡ answer_turn completion_id created model_name
            (respond_to reader (turn_style ids) draw has_tools (λ thought turn. some turn) o)
  respond_to-styles draw has_tools panics = refl
  respond_to-styles draw has_tools (value s) = rw (finish_turn-styles reader draw has_tools s) (
      let turn = finish_turn reader chat_style draw has_tools s in
      ap (λ r. value (some r))
        (chat_response-write_openai_non_stream_turn completion_id created model_name turn.content
          turn.reasoning_content turn.tool_calls))

  -- For every stream, the response of the handler without streaming is the response that the writer
  -- makes of the collected turn, if identifiers start with `call_` and the scanner does not fail;
  -- and the one panics exactly if the other does.
  pub handle_non_stream_response-collect_assistant_turn :
      (has_tools : Bool) (lines : List Bytes)
      → succeeds
          (handle_non_stream_response reader completion_id created model_name has_tools lines)
        ≡ answer_turn completion_id created model_name
            (collect_assistant_turn reader has_tools ids lines false)
  unfolding handle_non_stream_response collect_assistant_turn read_turn
  handle_non_stream_response-collect_assistant_turn has_tools lines =
      rw (collect_lines-styles reader 0 has_tools lines nothing_collected) (
        respond_to-styles (reader.fresh (length lines)) has_tools
          (collect_lines reader chat_style 0 has_tools lines nothing_collected))
