-- ===== src/Handler/ChatStream.antt =====
-- `handleStreamResponse` of internal/handler/chat.go: reading the events, and the chunks it sends. The
-- treatment of reasoning, of text before a block, of the buffer for calls and of the length of the
-- answer is that of `handleAnthropicStream`, whose functions it shares here.
pub mod Chunks
pub mod Flags
pub mod Found
pub mod Reason
pub mod Received
use zai_proxy.Filter.ToolCall.{parse_function_tool_calls}
use zai_proxy.Handler.Collect.{results_of}
use zai_proxy.Filter.Search.Sources.{get_search_results_markdown}
use zai_proxy.Model.Types.{SearchResult, UpstreamData, ImageSearchResult, ToolCall}
use zai_proxy.Filter.Thinking.{ThinkingFilter, extract_incremental_thinking}
use zai_proxy.Filter.Search.Results.{
  extract_text_before_glm_block, parse_image_search_results, parse_search_results,
  format_image_search_results,
}
use zai_proxy.Handler.Collect.Finish.{process_whole, number_function_calls}
use zai_proxy.Handler.AnthropicStream.Events.{phase_of}
use zai_proxy.Handler.AnthropicStream.Shared.{
  stream_content, stream_before, stream_results, stream_reasoning, flush_remaining, answer_content,
  if_any, new_streaming, Streaming,
}
use zai_proxy.Handler.Events.{
  Branch, details_end, branch_of, line_of, get_edit_content, Line, Reader, ignored, stops, event,
  thinking, results, images, mcp, search_call, calls, answer,
}
use zai_proxy.Handler.AnthropicStream.Blocks.{Emission, text, thought, remaining, tool_uses}
use zai_proxy.Text.{is_empty, codes, contains, Outcome, Bytes, bytes_eq, panics, value}
use zai_proxy.Base.{
  ℤ, pos, negsuc, positive_or, inc, dec, ℕ, zero, suc, ◌+◌, ◌-◌, ◌*◌, ◌/◌, ◌%◌, ◌^◌, ◌≤◌, ◌<◌, ◌≡◌,
  refl, sym, ap, ◌∙◌, ◌≢◌, ◌↔◌, ◌⊎◌, inl, inr, Bool, true, false, not, ◌&&◌, ◌||◌, Option, none,
  some, List, [], ◌∷◌, ◌++◌, map, append-nil, append_assoc, arith, ltb, leb, ◌==◌, if◌then◌else◌,
  ==_iff, Bool-cases, Option-cases, length, take, drop, length-append, take-append-drop,
  length-drop, drop-append, take-append, All, All-append, All-map,
}

-- The variables of the loop: those of the Anthropic handler, and what waits for an answer.
pub record Chatting : Type 0 where
  pub streaming : Streaming
  pub pending_sources_markdown : Bytes
  pub pending_image_search_markdown : Bytes

abbrev pub new_chatting : Chatting
new_chatting = record {
  streaming = new_streaming;
  pending_sources_markdown = [];
  pending_image_search_markdown = [];
}

-- What an event or a loop does: it sends, and goes on or panics.
pub record Sends : Type 0 where
  pub sends : List Emission
  pub state : Outcome Chatting

-- A step that keeps what waits.
abbrev pub going_on : Chatting → List Emission × Streaming → Sends
going_on s (es, streaming) = record {
  sends = es;
  state = value (record s { streaming = streaming });
}

unfoldable pub chat_calls : (ℕ → Bytes) → List ToolCall → Streaming → List Emission × Streaming
unfolding number_function_calls
chat_calls draw [] s = ([], s)
chat_calls draw (tc ∷ tcs) s =
    let numbered = number_function_calls 0 draw (tc ∷ tcs) in
    (
      tool_uses draw numbered ∷ [],
      record s { collected_tool_calls = numbered; has_tool_calls = true },
    )

-- The sources and the images that wait.
unfoldable pub send_pending : Chatting → List Emission × Chatting
send_pending s = (
  if_any text s.pending_sources_markdown ++ if_any text s.pending_image_search_markdown,
  record s { pending_sources_markdown = []; pending_image_search_markdown = [] },
)

-- The sources as reasoning. Nothing waits here any more.
unfoldable pub send_late_sources : Chatting → List Emission × Chatting
send_late_sources s =
    if s.streaming.thinking_filter.has_seen_first_thinking
    then (if_any thought s.pending_sources_markdown, record s { pending_sources_markdown = [] })
    else ([], s)

-- The reasoning in the edit of an answer.
unfoldable pub edited_reasoning : UpstreamData → Bytes → ThinkingFilter → Outcome Bytes
unfolding bytes_eq contains extract_incremental_thinking
edited_reasoning d edit_content f =
    if bytes_eq d.phase (codes "answer")
      && is_empty d.delta_content
      && not (is_empty edit_content)
      && contains details_end edit_content
    then extract_incremental_thinking f edit_content
    else value []

-- It is shown with what the filter of references holds.
unfoldable pub show_edited : Bytes → Streaming → List Emission × Streaming
unfolding process_whole
show_edited [] s = ([], s)
show_edited (c ∷ reasoning) s =
    let (shown, f) = process_whole s.search_ref_filter (c ∷ reasoning) in
    (if_any thought shown, record s { search_ref_filter = f })

module _ (reader : Reader) (draw : ℕ → ℕ → ℕ → Bytes) where
  unfoldable pub chat_results : ℕ → List SearchResult → Chatting → Chatting
  unfolding stream_results get_search_results_markdown
  chat_results n [] s = s
  chat_results n (r ∷ rs) s =
      let streaming = stream_results (r ∷ rs) s.streaming in
      record s {
        streaming = streaming;
        pending_sources_markdown =
            get_search_results_markdown (reader.range n (results_of streaming.search_ref_filter));
      }

  unfoldable pub chat_images : List ImageSearchResult → Sends → Sends
  unfolding format_image_search_results
  chat_images [] r = r
  chat_images (i ∷ is) r = record r {
    state = elim r.state [
      | panics ↦ panics
      | value s ↦
          value (record s { pending_image_search_markdown = format_image_search_results (i ∷ is) })
    ];
  }

  -- An answer, behind what was pending and held; `reasoning` is what its edit gives.
  unfoldable pub chat_content : Bool → ℕ → UpstreamData → Bytes → Outcome Bytes → Chatting → Sends
  unfolding answer_content show_edited stream_content bytes_eq
  chat_content has_tools n d edit_content panics s = record { sends = []; state = panics }
  chat_content has_tools n d edit_content (value reasoning) s =
      let (content, total) =
        answer_content d edit_content s.streaming.total_content_output_length in
      let (rs, s1) =
        show_edited reasoning (record s.streaming { total_content_output_length = total }) in
      let (es, s2) =
        stream_content (λ draw tcs. tcs) reader draw has_tools n
          (bytes_eq d.phase (codes "answer") && not (is_empty d.delta_content)) content s1 in
      going_on s (rs ++ es, s2)

  -- What is sent before, and the rest.
  abbrev pub sends_before : List Emission → Sends → Sends
  sends_before es r = record r { sends = es ++ r.sends }

  unfoldable pub chat_answer : Bool → ℕ → UpstreamData → Bytes → Chatting → Sends
  unfolding send_pending flush_remaining send_late_sources edited_reasoning chat_content
  chat_answer has_tools n d edit_content s =
      let (ps, s1) = send_pending s in
      let (held, streaming) = flush_remaining s1.streaming in
      let (late, s2) = send_late_sources (record s1 { streaming = streaming }) in
      sends_before (ps ++ (held ++ late)) (
        chat_content has_tools n d edit_content
          (edited_reasoning d edit_content s2.streaming.thinking_filter) s2)

  unfoldable pub chat_branch : Bool → ℕ → Branch → UpstreamData → Bytes → Chatting → Sends
  unfolding stream_reasoning chat_results stream_before chat_images chat_calls chat_answer
      parse_search_results parse_image_search_results extract_text_before_glm_block
      parse_function_tool_calls
  chat_branch has_tools n thinking d edit_content s =
      going_on s (stream_reasoning d.delta_content s.streaming)
  chat_branch has_tools n results d edit_content s = record {
    sends = [];
    state = value (chat_results n (parse_search_results reader.read_results edit_content) s);
  }
  chat_branch has_tools n images d edit_content s =
      chat_images (parse_image_search_results reader.read_image_texts edit_content)
        (going_on s (stream_before (extract_text_before_glm_block edit_content) s.streaming))
  chat_branch has_tools n mcp d edit_content s =
      going_on s (stream_before (extract_text_before_glm_block edit_content) s.streaming)
  chat_branch has_tools n search_call d edit_content s = record { sends = []; state = value s }
  chat_branch has_tools n calls d edit_content s =
      going_on s
        (chat_calls (draw n 0) (parse_function_tool_calls reader.json edit_content) s.streaming)
  chat_branch has_tools n answer d edit_content s = chat_answer has_tools n d edit_content s

  unfoldable pub chat_event : Bool → ℕ → UpstreamData → Chatting → Sends
  unfolding get_edit_content branch_of phase_of chat_branch
  chat_event has_tools n d s =
      let edit_content = get_edit_content reader d in
      let b = branch_of has_tools d edit_content in
      chat_branch has_tools n b d edit_content
        (record s { streaming = phase_of reader draw b d s.streaming })

  abbrev pub and_behind : Sends → (Chatting → Sends) → Sends
  and_behind r behind = elim r.state [ panics ↦ r | value s ↦ sends_before r.sends (behind s) ]

  unfoldable pub chat_line : Bool → ℕ → Line → (Chatting → Sends) → Chatting → Sends
  unfolding chat_event
  chat_line has_tools n ignored behind s = behind s
  chat_line has_tools n stops behind s = record { sends = []; state = value s }
  chat_line has_tools n (event d) behind s = and_behind (chat_event has_tools n d s) behind

  -- The loop from line `n` on.
  unfoldable pub chat_lines : Bool → ℕ → List Bytes → Chatting → Sends
  unfolding line_of chat_line
  chat_lines has_tools n [] s = record { sends = []; state = value s }
  chat_lines has_tools n (line ∷ lines) s =
      chat_line has_tools n (line_of reader line) (chat_lines has_tools (suc n) lines) s
