-- ===== src/Handler/Events.antt =====
-- What the handlers of internal/handler share when they read the stream of the upstream: the lines,
-- the order of the tests on an event, and the rounds of thinking. The source repeats this code in
-- `collectAssistantTurn`, in both handlers of chat.go and in both of anthropic.go.
use zai_proxy.Filter.Search.Results.{is_search_result_content, is_search_tool_call}
use zai_proxy.Text.{trim_prefix, is_empty, codes, index, has_prefix, contains, bytes_eq, Bytes}
use zai_proxy.Model.Types.{SearchResult, UpstreamData}
use zai_proxy.Filter.ToolCall.{is_function_tool_call, decode_string, Json}
use zai_proxy.Filter.Thinking.{reset_for_new_round, ThinkingFilter}
use zai_proxy.Base.{
  ℕ, suc, ◌+◌, Bool, not, ◌&&◌, Option, none, some, List, [], ◌∷◌, if◌then◌else◌, drop,
}

-- What the code uses that is not its own: the reading of JSON, the verb `%q`, the order of a range
-- over the map of results, and what is drawn for position `i`, at line `n` of the stream.
pub record Reader : Type 0 where
  pub json : Json
  pub read_data : Bytes → Option UpstreamData
  pub read_results : Bytes → Option (List SearchResult)
  pub read_image_texts : Bytes → Option (List Bytes)
  pub quote : Bytes → Bytes
  pub range : ℕ → List SearchResult → List SearchResult
  pub fresh : ℕ → ℕ → Bytes

-- A line of the stream: passed over, the end of the loop, or an event.
pub data Line : Type 0 where
  ignored : Line
  stops : Line
  event : UpstreamData → Line

unfoldable pub data_line : Option UpstreamData → Line
unfolding bytes_eq
data_line none = ignored
data_line (some d) = if bytes_eq d.phase (codes "done") then stops else event d

unfoldable pub line_of : Reader → Bytes → Line
unfolding has_prefix bytes_eq data_line
line_of reader line =
    let payload = drop 6 line in
    if not (has_prefix (codes "data: ") line)
    then ignored
    else if bytes_eq payload (codes "[DONE]")
    then stops
    else data_line (reader.read_data payload)

unfoldable pub get_edit_content : Reader → UpstreamData → Bytes
unfolding decode_string
get_edit_content reader d = decode_string reader.json d.edit_content

-- What a handler does with an event.
pub data Branch : Type 0 where
  thinking : Branch
  results : Branch
  images : Branch
  mcp : Branch
  search_call : Branch
  calls : Branch
  answer : Branch

-- The tests behind that for thinking, each of them on an edit that is not empty.
unfoldable pub edit_branch : Bool → Bytes → Bytes → Branch
unfolding contains is_search_tool_call is_function_tool_call
edit_branch has_tools phase edit_content =
    if is_empty edit_content
    then answer
    else if is_search_result_content edit_content
    then results
    else if contains (codes "\"search_image\"") edit_content
    then images
    else if contains (codes "\"mcp\"") edit_content
    then mcp
    else if is_search_tool_call edit_content phase
    then search_call
    else if has_tools && is_function_tool_call edit_content phase
    then calls
    else answer

unfoldable pub branch_of : Bool → UpstreamData → Bytes → Branch
unfolding bytes_eq edit_branch
branch_of has_tools d edit_content =
    if bytes_eq d.phase (codes "thinking") && not (is_empty d.delta_content)
    then thinking
    else edit_branch has_tools d.phase edit_content

-- Whether thinking starts again behind another phase.
unfoldable pub is_new_round : ThinkingFilter → Bool
unfolding bytes_eq
is_new_round f = not (is_empty f.last_phase) && not (bytes_eq f.last_phase (codes "thinking"))

unfoldable pub enter_thinking : ThinkingFilter → ThinkingFilter
unfolding is_new_round
enter_thinking f =
    let reset = reset_for_new_round f in
    if is_new_round f
    then record reset {
      thinking_round_count = suc f.thinking_round_count;
      last_phase = codes "thinking";
    }
    else record f { last_phase = codes "thinking" }

-- `LastPhase` in the other branches.
unfoldable pub enter_phase : Bytes → ThinkingFilter → ThinkingFilter
enter_phase [] f = f
enter_phase (c ∷ phase) f = record f { last_phase = c ∷ phase }

abbrev pub details_end : Bytes
details_end = codes "</details>"

-- What follows the first `</details>`, without a newline there.
unfoldable pub after_details : Bytes → Bytes
unfolding index trim_prefix
after_details edit_content = elim (index details_end edit_content) [
  | none ↦ []
  | some i ↦ trim_prefix (b'\n' ∷ []) (drop (i + 10) edit_content)
]
