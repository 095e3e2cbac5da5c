-- ===== src/Handler/AnthropicStream/Shared.antt =====
-- Parts of `handleAnthropicStream` that `handleStreamResponse` of chat.go repeats: reasoning, calls,
-- the text of an answer, and the buffer for calls in it.
use zai_proxy.Handler.Turn.{is_nil}
use zai_proxy.Handler.AnthropicStream.Prompt.{Naming, use_calls, scan_prompt_buffer}
use zai_proxy.Handler.AnthropicStream.Blocks.{text}
use zai_proxy.Model.Types.{UpstreamData, ToolCall, SearchResult}
use zai_proxy.Handler.AnthropicStream.Blocks.{thought, tool_uses, remaining, Emission}
use zai_proxy.Filter.PromptTool.Extract.{extract_prompt_tool_calls, two_newlines}
use zai_proxy.Text.{is_empty, codes, contains, bytes_eq, Bytes}
use zai_proxy.Handler.Events.{Reader, details_end, after_details, enter_thinking, is_new_round}
use zai_proxy.Handler.Collect.Finish.{name_function_calls}
use zai_proxy.Filter.Thinking.{
  process_thinking, new_thinking_filter, flush_thinking, ThinkingFilter,
}
use zai_proxy.Filter.Search.Reference.{
  add_search_results, new_search_ref_filter, SearchRefFilter, store_results, process,
}
use zai_proxy.Base.{
  ℕ, zero, suc, ◌+◌, Bool, true, false, not, ◌&&◌, ◌||◌, List, [], ◌∷◌, ◌++◌, ltb, leb,
  if◌then◌else◌,
}

-- Characters of a text in UTF-8, which decoded JSON is: the bytes that start one.
abbrev pub is_continuation : ℕ → Bool
is_continuation c = leb 0x80 c && ltb c 0xc0

-- `len([]rune(s))`
unfoldable pub rune_count : Bytes → ℕ
rune_count [] = 0
rune_count (c ∷ s) = let rest = rune_count s in if is_continuation c then rest else suc rest

-- `string([]rune(s)[n:])`
unfoldable pub drop_runes : ℕ → Bytes → Bytes
drop_runes n [] = []
drop_runes zero (c ∷ s) = let rest = drop_runes zero s in if is_continuation c then rest else c ∷ s
drop_runes (suc n) (c ∷ s) =
    let same = drop_runes (suc n) s in
    let next = drop_runes n s in if is_continuation c then same else next

-- The variables that decide what is sent.
pub record Streaming : Type 0 where
  pub thinking_filter : ThinkingFilter
  pub search_ref_filter : SearchRefFilter
  pub total_content_output_length : ℕ
  pub has_tool_calls : Bool
  pub collected_tool_calls : List ToolCall
  pub prompt_tool_buffer : Bytes

abbrev pub new_streaming : Streaming
new_streaming = record {
  thinking_filter = new_thinking_filter;
  search_ref_filter = new_search_ref_filter;
  total_content_output_length = 0;
  has_tool_calls = false;
  collected_tool_calls = [];
  prompt_tool_buffer = [];
}

-- A new round of thinking starts with an empty line, if it shows anything.
unfoldable pub with_break : Bool → Bytes → Bytes
with_break b [] = []
with_break true (c ∷ out) = two_newlines ++ c ∷ out
with_break false (c ∷ out) = c ∷ out

abbrev pub if_any : (Bytes → Emission) → Bytes → List Emission
if_any emission [] = []
if_any emission (c ∷ s) = emission (c ∷ s) ∷ []

-- Reasoning goes through the filter of references.
unfoldable pub show_reasoning :
    (Bytes → Emission) → Bytes → ThinkingFilter → Streaming → List Emission × Streaming
unfolding process
show_reasoning emission [] f s = ([], record s { thinking_filter = f })
show_reasoning emission (c ∷ out) f s =
    let (shown, g) = process s.search_ref_filter (c ∷ out) in
    (
      if_any emission shown,
      record s {
        thinking_filter = record f { last_output_chunk = c ∷ out };
        search_ref_filter = g;
      },
    )

unfoldable pub stream_reasoning : Bytes → Streaming → List Emission × Streaming
unfolding is_new_round enter_thinking process_thinking with_break show_reasoning
stream_reasoning delta_content s =
    let (out, f) = process_thinking (enter_thinking s.thinking_filter) delta_content in
    show_reasoning thought
      (with_break (is_new_round s.thinking_filter && ltb 1 f.thinking_round_count) out) f s

unfoldable pub stream_results : List SearchResult → Streaming → Streaming
unfolding store_results
stream_results [] s = s
stream_results (r ∷ rs) s = record s {
  search_ref_filter = add_search_results s.search_ref_filter (r ∷ rs);
}

-- The text before a block.
unfoldable pub stream_before : Bytes → Streaming → List Emission × Streaming
unfolding process
stream_before [] s = ([], s)
stream_before (c ∷ before) s =
    let (shown, f) = process s.search_ref_filter (c ∷ before) in
    (text shown ∷ [], record s { search_ref_filter = f })

unfoldable pub stream_calls : (ℕ → Bytes) → List ToolCall → Streaming → List Emission × Streaming
unfolding name_function_calls
stream_calls draw [] s = ([], s)
stream_calls draw (tc ∷ tcs) s =
    let named = name_function_calls 0 draw (tc ∷ tcs) in
    (tool_uses draw named ∷ [], record s { collected_tool_calls = named; has_tool_calls = true })

-- The reasoning that the filter still holds, before an answer.
unfoldable pub flush_remaining : Streaming → List Emission × Streaming
unfolding flush_thinking show_reasoning
flush_remaining s =
    let (rest, f) = flush_thinking s.thinking_filter in show_reasoning remaining rest f s

-- The text of an answer, with the new `totalContentOutputLength`.
unfoldable pub answer_content : UpstreamData → Bytes → ℕ → Bytes × ℕ
unfolding bytes_eq contains after_details rune_count drop_runes
answer_content d edit_content total =
    if bytes_eq d.phase (codes "answer") && not (is_empty d.delta_content)
    then (d.delta_content, total)
    else if bytes_eq d.phase (codes "answer") && not (is_empty edit_content)
    then if contains details_end edit_content
      then (after_details edit_content, rune_count (after_details edit_content))
      else ([], total)
    else if (bytes_eq d.phase (codes "other") || bytes_eq d.phase (codes "tool_call"))
        && not (is_empty edit_content)
    then if ltb total (rune_count edit_content)
      then (drop_runes total edit_content, rune_count edit_content)
      else (edit_content, total)
    else ([], total)

module _ (naming : Naming) (reader : Reader) (draw : ℕ → ℕ → ℕ → Bytes) where
  -- Text behind the filter, on line `n`: with tools it goes through the buffer.
  unfoldable pub stream_text_with : Bool → ℕ → Bytes → Streaming → List Emission × Streaming
  unfolding scan_prompt_buffer
  stream_text_with false n content s = (text content ∷ [], s)
  stream_text_with true n content s =
      let scan = scan_prompt_buffer naming reader (draw n) (s.prompt_tool_buffer ++ content) in
      (
        scan.emissions,
        record s {
          prompt_tool_buffer = scan.rest;
          collected_tool_calls = s.collected_tool_calls ++ scan.found;
          has_tool_calls = s.has_tool_calls || not (is_nil scan.found);
        },
      )

  -- The text that the filter shows.
  unfoldable pub stream_shown : Bool → ℕ → Bool → Bytes → Streaming → List Emission × Streaming
  unfolding rune_count stream_text_with
  stream_shown has_tools n is_delta [] s = ([], s)
  stream_shown has_tools n is_delta (c ∷ shown) s =
      let total = s.total_content_output_length in
      stream_text_with has_tools n (c ∷ shown) (record s {
        total_content_output_length = if is_delta then total + rune_count (c ∷ shown) else total;
      })

  unfoldable pub stream_content : Bool → ℕ → Bool → Bytes → Streaming → List Emission × Streaming
  unfolding process stream_shown
  stream_content has_tools n is_delta [] s = ([], s)
  stream_content has_tools n is_delta (c ∷ content) s =
      let (shown, f) = process s.search_ref_filter (c ∷ content) in
      stream_shown has_tools n is_delta shown (record s { search_ref_filter = f })

  -- The rest of the buffer, behind line `n`: its calls, then its text.
  unfoldable pub flush_buffer : ℕ → Streaming → List Emission × Streaming
  unfolding extract_prompt_tool_calls use_calls
  flush_buffer n s = elim s.prompt_tool_buffer [
    | [] ↦ ([], s)
    | c ∷ rest ↦
        let (clean_content, found) =
          extract_prompt_tool_calls reader.json reader.quote (draw n 0) (c ∷ rest) in
        (
          use_calls naming (draw n 0) found ++ if_any text clean_content,
          record s {
            prompt_tool_buffer = [];
            collected_tool_calls = s.collected_tool_calls ++ found;
            has_tool_calls = s.has_tool_calls || not (is_nil found);
          },
        )
  ]
