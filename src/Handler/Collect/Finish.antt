-- ===== src/Handler/Collect/Finish.antt =====
-- What stands behind the loop: the turn of `collectAssistantTurn`, and the responses of
-- `handleNonStreamResponse` and `handleAnthropicNonStream`.
use zai_proxy.Handler.OpenaiTurn.{ChatCompletionResponse}
use zai_proxy.Handler.AnthropicTurn.{
  text_block, thinking_block, tool_use_block, or_empty_text, ContentBlock, AnthropicResponse,
}
use zai_proxy.Handler.Turn.{call_name, is_nil, assign_tool_call_metadata, AssistantTurn}
use zai_proxy.Model.Types.{ToolCall}
use zai_proxy.Filter.PromptTool.Extract.{extract_prompt_tool_calls}
use zai_proxy.Text.{panics, value, codes, concat, is_empty, Outcome, Bytes}
use zai_proxy.Handler.Events.{Reader}
use zai_proxy.Handler.Collect.{nothing_collected, collect_lines, Collecting, Style}
use zai_proxy.Filter.Search.Reference.{SearchRefFilter, flush_references, process}
use zai_proxy.Base.{
  ℕ, suc, Bool, true, false, not, ◌&&◌, Option, none, some, List, [], ◌∷◌, ◌++◌, ltb, if◌then◌else◌,
  length,
}

-- `Process` on a whole text, and `Flush`.
unfoldable pub process_whole : SearchRefFilter → Bytes → Bytes × SearchRefFilter
unfolding process flush_references
process_whole f text =
    let (shown, g) = process f text in let (rest, h) = flush_references g in (shown ++ rest, h)

module _ (reader : Reader) (style : Style) where
  -- The calls in the text, if it has any.
  unfoldable pub take_prompt_calls :
      (ℕ → Bytes) → Bytes → Bytes × List ToolCall → Bytes × List ToolCall
  take_prompt_calls draw content (clean_content, []) = (content, [])
  take_prompt_calls draw content (clean_content, tc ∷ tcs) =
      (clean_content, style.name_prompt_calls draw (tc ∷ tcs))

  unfoldable pub with_prompt_calls :
      (ℕ → Bytes) → Bool → Bytes → List ToolCall → Bytes × List ToolCall
  unfolding take_prompt_calls extract_prompt_tool_calls
  with_prompt_calls draw has_tools content calls =
      if has_tools && is_nil calls
      then take_prompt_calls draw content
          (extract_prompt_tool_calls reader.json reader.quote draw content)
      else (content, calls)

  unfoldable pub finish_turn : (ℕ → Bytes) → Bool → Collecting → AssistantTurn
  unfolding process_whole with_prompt_calls
  finish_turn draw has_tools s =
      let (full_content, f) = process_whole s.search_ref_filter (concat s.chunks) in
      let (full_reasoning, g) = process_whole f (concat s.reasoning_chunks) in
      let (content, calls) = with_prompt_calls draw has_tools full_content s.collected_tool_calls in
      record { content = content; reasoning_content = full_reasoning; tool_calls = calls }

  abbrev pub respond_to :
      {A : Type 0}
      → (ℕ → Bytes)
      → Bool
      → (Bool → AssistantTurn → A)
      → Outcome Collecting
      → Outcome A
  respond_to draw has_tools respond panics = panics
  respond_to draw has_tools respond (value s) =
      value (respond s.has_thinking (finish_turn draw has_tools s))

  -- The loop on all the lines; what is drawn behind it has their number.
  unfoldable pub read_turn :
      {A : Type 0} → Bool → List Bytes → (Bool → AssistantTurn → A) → Outcome A
  unfolding collect_lines finish_turn
  read_turn has_tools lines respond =
      respond_to (reader.fresh (length lines)) has_tools respond
        (collect_lines reader style 0 has_tools lines nothing_collected)

-- The loop over the calls in `handleNonStreamResponse`, from place `i` on.
unfoldable pub number_function_calls : ℕ → (ℕ → Bytes) → List ToolCall → List ToolCall
number_function_calls i draw [] = []
number_function_calls i draw (tc ∷ tcs) =
    record tc { id = if is_empty tc.id then codes "call_" ++ draw i else tc.id; index = i }
    ∷ number_function_calls (suc i) draw tcs

-- The loop over the calls in `handleAnthropicNonStream`.
unfoldable pub name_function_calls : ℕ → (ℕ → Bytes) → List ToolCall → List ToolCall
name_function_calls i draw [] = []
name_function_calls i draw (tc ∷ tcs) =
    record tc { id = if is_empty tc.id then codes "toolu_" ++ draw i else tc.id }
    ∷ name_function_calls (suc i) draw tcs

abbrev pub turn_style : Bytes → Style
turn_style id_prefix = record {
  shows_results = true;
  name_calls = λ draw tcs. assign_tool_call_metadata draw id_prefix tcs;
  name_prompt_calls = λ draw tcs. assign_tool_call_metadata draw id_prefix tcs;
}

abbrev pub chat_style : Style
chat_style = record {
  shows_results = true;
  name_calls = λ draw tcs. number_function_calls 0 draw tcs;
  name_prompt_calls = λ draw tcs. tcs;
}

abbrev pub anthropic_style : Style
anthropic_style = record {
  shows_results = false;
  name_calls = λ draw tcs. name_function_calls 0 draw tcs;
  name_prompt_calls = λ draw tcs. tcs;
}

-- The turn, or `none` for the scanner's error.
unfoldable pub collect_assistant_turn :
    Reader → Bool → Bytes → List Bytes → Bool → Outcome (Option AssistantTurn)
unfolding read_turn
collect_assistant_turn reader has_tools id_prefix lines failed =
    read_turn reader (turn_style id_prefix) has_tools lines
      (λ thought turn. if failed then none else some turn)

unfoldable pub chat_response : Bytes → ℕ → Bytes → AssistantTurn → ChatCompletionResponse
chat_response completion_id created model_name turn = record {
  id = completion_id;
  created = created;
  model = model_name;
  message = record {
    role = codes "assistant";
    content = turn.content;
    reasoning_content = turn.reasoning_content;
    tool_calls = turn.tool_calls;
  };
  finish_reason = if ltb 0 (length turn.tool_calls) then codes "tool_calls" else codes "stop";
}

unfoldable pub handle_non_stream_response :
    Reader → Bytes → ℕ → Bytes → Bool → List Bytes → Outcome ChatCompletionResponse
unfolding read_turn chat_response
handle_non_stream_response reader completion_id created model_name has_tools lines =
    read_turn reader chat_style has_tools lines
      (λ thought turn. chat_response completion_id created model_name turn)

-- The blocks of the calls, before they are encoded; a call without an identifier gets one.
unfoldable pub call_blocks : ℕ → (ℕ → Bytes) → List ToolCall → List ContentBlock
call_blocks i draw [] = []
call_blocks i draw (tc ∷ tcs) =
    tool_use_block (if is_empty tc.id then codes "toolu_" ++ draw i else tc.id) (call_name tc)
      tc.function.arguments
    ∷ call_blocks (suc i) draw tcs

unfoldable pub message_blocks : (ℕ → Bytes) → Bool → AssistantTurn → List ContentBlock
unfolding call_blocks
message_blocks draw has_thinking turn = or_empty_text (
    (if has_thinking && not (is_empty turn.reasoning_content)
      then thinking_block turn.reasoning_content ∷ []
      else [])
    ++ ((if is_empty turn.content then [] else text_block turn.content ∷ [])
        ++ call_blocks 0 draw turn.tool_calls))

unfoldable pub handle_anthropic_non_stream :
    Reader → Bytes → Bytes → Bool → List Bytes → Outcome AnthropicResponse
unfolding read_turn message_blocks
handle_anthropic_non_stream reader message_id request_model has_tools lines =
    read_turn reader anthropic_style has_tools lines (λ thought turn. record {
      id = message_id;
      content = message_blocks (reader.fresh (suc (length lines))) thought turn;
      model = request_model;
      stop_reason = if ltb 0 (length turn.tool_calls) then codes "tool_use" else codes "end_turn";
    })
