-- ===== src/Handler/AnthropicStream/Events.antt =====
-- The loop of `handleAnthropicStream` on the lines, and what stands behind it.
use zai_proxy.Handler.AnthropicTurn.{Event}
use zai_proxy.Filter.ToolCall.{parse_function_tool_calls}
use zai_proxy.Handler.AnthropicStream.Prompt.{renamed}
use zai_proxy.Filter.Search.Results.{extract_text_before_glm_block, parse_search_results}
use zai_proxy.Handler.AnthropicStream.Blocks.{opened, end_message, emit_all, text}
use zai_proxy.Model.Types.{UpstreamData}
use zai_proxy.Handler.AnthropicStream.Blocks.{Emission}
use zai_proxy.Text.{is_empty, codes, bytes_eq, Bytes}
use zai_proxy.Handler.Events.{
  branch_of, Branch, line_of, get_edit_content, enter_phase, Line, Reader, ignored, stops, event,
  thinking, results, images, mcp, search_call, calls, answer,
}
use zai_proxy.Filter.Search.Reference.{flush_references}
use zai_proxy.Base.{
  ℕ, suc, Bool, true, false, not, ◌&&◌, Option, none, some, List, [], ◌∷◌, ◌++◌, length,
}
use zai_proxy.Handler.AnthropicStream.Shared.{
  Streaming, answer_content, flush_buffer, flush_remaining, if_any, new_streaming, stream_before,
  stream_calls, stream_content, stream_reasoning, stream_results,
}

module _ (reader : Reader) (draw : ℕ → ℕ → ℕ → Bytes) where
  unfoldable pub stream_answer :
      Bool → ℕ → UpstreamData → Bytes → Streaming → List Emission × Streaming
  unfolding flush_remaining answer_content stream_content bytes_eq
  stream_answer has_tools n d edit_content s =
      let (held, s1) = flush_remaining s in
      let (content, total) = answer_content d edit_content s1.total_content_output_length in
      let (es, s2) =
        stream_content renamed reader draw has_tools n
          (bytes_eq d.phase (codes "answer") && not (is_empty d.delta_content)) content
          (record s1 { total_content_output_length = total }) in
      (held ++ es, s2)

  -- The branch of an event; the images found are not shown.
  unfoldable pub stream_branch :
      Bool → ℕ → Branch → UpstreamData → Bytes → Streaming → List Emission × Streaming
  unfolding stream_reasoning stream_results stream_before stream_calls stream_answer
      parse_search_results extract_text_before_glm_block parse_function_tool_calls
  stream_branch has_tools n thinking d edit_content s = stream_reasoning d.delta_content s
  stream_branch has_tools n results d edit_content s =
      ([], stream_results (parse_search_results reader.read_results edit_content) s)
  stream_branch has_tools n images d edit_content s =
      stream_before (extract_text_before_glm_block edit_content) s
  stream_branch has_tools n mcp d edit_content s =
      stream_before (extract_text_before_glm_block edit_content) s
  stream_branch has_tools n search_call d edit_content s = ([], s)
  stream_branch has_tools n calls d edit_content s =
      stream_calls (draw n 0) (parse_function_tool_calls reader.json edit_content) s
  stream_branch has_tools n answer d edit_content s = stream_answer has_tools n d edit_content s

  unfoldable pub phase_of : Branch → UpstreamData → Streaming → Streaming
  unfolding enter_phase
  phase_of thinking d s = s
  phase_of b d s = record s { thinking_filter = enter_phase d.phase s.thinking_filter }

  unfoldable pub stream_event : Bool → ℕ → UpstreamData → Streaming → List Emission × Streaming
  unfolding get_edit_content branch_of phase_of stream_branch
  stream_event has_tools n d s =
      let edit_content = get_edit_content reader d in
      let b = branch_of has_tools d edit_content in
      stream_branch has_tools n b d edit_content (phase_of b d s)

  -- What a line sends, then what the lines behind it do.
  unfoldable pub stream_line :
      Bool
      → ℕ
      → Line
      → (Streaming → List Emission × Streaming)
      → Streaming
      → List Emission × Streaming
  unfolding stream_event
  stream_line has_tools n ignored behind s = behind s
  stream_line has_tools n stops behind s = ([], s)
  stream_line has_tools n (event d) behind s =
      let (es, s1) = stream_event has_tools n d s in let (fs, s2) = behind s1 in (es ++ fs, s2)

  -- The loop from line `n` on.
  unfoldable pub stream_lines : Bool → ℕ → List Bytes → Streaming → List Emission × Streaming
  unfolding line_of stream_line
  stream_lines has_tools n [] s = ([], s)
  stream_lines has_tools n (line ∷ lines) s =
      stream_line has_tools n (line_of reader line) (stream_lines has_tools (suc n) lines) s

  -- All that is sent between the start and the end of the message, and whether it has calls.
  unfoldable pub emissions_of : Bool → List Bytes → List Emission × Bool
  unfolding stream_lines flush_buffer flush_references
  emissions_of has_tools lines =
      let (es, s) = stream_lines has_tools 0 lines new_streaming in
      let (fs, s') = flush_buffer renamed reader draw (length lines) s in
      (es ++ (fs ++ if_any text (flush_references s'.search_ref_filter).0), s'.has_tool_calls)

  -- The events, or `none` for the error response, when the writer cannot flush.
  unfoldable pub handle_anthropic_stream :
      Bytes → Bytes → Bool → Bool → List Bytes → Option (List Event)
  unfolding emissions_of emit_all end_message
  handle_anthropic_stream message_id request_model false has_tools lines = none
  handle_anthropic_stream message_id request_model true has_tools lines =
      let (es, has_tool_calls) = emissions_of has_tools lines in
      some (end_message has_tool_calls (emit_all es (opened message_id request_model)))
