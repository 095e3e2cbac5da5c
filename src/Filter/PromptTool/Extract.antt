-- ===== src/Filter/PromptTool/Extract.antt =====
-- `ExtractPromptToolCalls` and `HasPromptToolCallOpen` of internal/filter/prompttool.go. `fresh i` is
-- the identifier drawn for call number `i`.
use zai_proxy.Base.{
  ℕ, zero, suc, Bool, true, false, List, [], ◌∷◌, ◌++◌, map, ltb, if◌then◌else◌, length,
}
use mathlib.Core.List.{reverse}
use zai_proxy.Text.{Bytes, codes, is_empty, contains, replace_all, trim_space}
use zai_proxy.Text.Matching.{Matcher, split_matches, count}
use zai_proxy.Model.Types.{ToolCall}
use zai_proxy.Filter.ToolCall.{Json, all_calls}
use zai_proxy.Filter.PromptTool.Patterns.{alt_tool_call, json_block, diamond_tool_call}
use zai_proxy.Filter.PromptTool.Tags.{parse_prompt_tool_call_json, extract_tool_call_tags}

abbrev pub three_newlines : Bytes
three_newlines = b'\n' ∷ b'\n' ∷ b'\n' ∷ []

abbrev pub two_newlines : Bytes
two_newlines = b'\n' ∷ b'\n' ∷ []

-- The loop that shortens runs of newlines; the number bounds its rounds.
unfoldable pub squeeze : ℕ → Bytes → Bytes
unfolding contains replace_all
squeeze zero s = s
squeeze (suc rounds) s = elim (contains three_newlines s) [
  | false ↦ s
  | true ↦ squeeze rounds (replace_all three_newlines two_newlines s)
]

-- A round shortens the text, so its length is enough.
unfoldable pub clean_up : Bytes → Bytes
unfolding squeeze trim_space
clean_up cleaned = let s = trim_space cleaned in squeeze (length s) s

-- The loop at the end, from index `i` on.
unfoldable pub number_calls : (ℕ → Bytes) → ℕ → List ToolCall → List ToolCall
number_calls fresh i [] = []
number_calls fresh i (tc ∷ tcs) =
    record tc {
      id = if is_empty tc.id then codes "call_" ++ fresh i else tc.id;
      index = i;
      kind = codes "function";
    }
    ∷ number_calls fresh (suc i) tcs

abbrev pub diamond_call : Bytes × Bytes → ToolCall
diamond_call (name, arguments) = record {
  id = [];
  kind = [];
  function = record { name = name; arguments = arguments };
  index = 0;
}

module _ (json : Json) (quote : Bytes → Bytes) where
  -- The tags, if they give any call.
  unfoldable pub tag_calls : Bytes → Bytes × List ToolCall
  unfolding extract_tool_call_tags
  tag_calls content =
      let (result, calls) = extract_tool_call_tags json quote content in
      elim calls [ [] ↦ (content, []) | c ∷ cs ↦ (result, c ∷ cs) ]

  -- One of the two patterns of the loop: its matches are read from the last to the first.
  unfoldable pub pattern_calls : Matcher Bytes → Bytes × List ToolCall → Bytes × List ToolCall
  unfolding split_matches parse_prompt_tool_call_json
  pattern_calls pattern_at (cleaned, calls) =
      let (groups, rest) = split_matches pattern_at 0 cleaned in
      (rest, calls ++ all_calls (parse_prompt_tool_call_json json quote) (reverse groups))

  unfoldable pub diamond_calls : Bytes × List ToolCall → Bytes × List ToolCall
  unfolding split_matches diamond_tool_call
  diamond_calls (cleaned, calls) =
      let (groups, rest) = split_matches diamond_tool_call 0 cleaned in
      (rest, calls ++ map diamond_call (reverse groups))

  -- All the formats in order.
  unfoldable pub all_formats : Bytes → Bytes × List ToolCall
  unfolding tag_calls pattern_calls diamond_calls alt_tool_call json_block
  all_formats content =
      diamond_calls (pattern_calls json_block (pattern_calls alt_tool_call (tag_calls content)))

  unfoldable pub extract_prompt_tool_calls : (ℕ → Bytes) → Bytes → Bytes × List ToolCall
  unfolding all_formats clean_up number_calls
  extract_prompt_tool_calls fresh content =
      let (cleaned, calls) = all_formats content in
      elim calls [ [] ↦ (content, []) | c ∷ cs ↦ (clean_up cleaned, number_calls fresh 0 (c ∷ cs)) ]

unfoldable pub has_prompt_tool_call_open : Bytes → Bool
unfolding count
has_prompt_tool_call_open content =
    if ltb (count (codes "</tool_call>") content) (count (codes "<tool_call>") content)
    then true
    else if ltb (count (codes "[/TOOL]") content) (count (codes "[TOOL]") content)
    then true
    else ltb (count (codes "[/TOOL_CALL]") content) (count (codes "[TOOL_CALL]") content)
