-- ===== src/Filter/Thinking.antt =====
-- internal/filter/thinking.go: the reasoning text is a quoted block, and arrives in pieces.
pub mod Extract
pub mod Hold
pub mod Streaming
pub mod Unquote
use zai_proxy.Base.{
  ℕ, ◌+◌, ◌-◌, ◌/◌, ◌<◌, Bool, true, false, not, none, some, [], ◌∷◌, ◌++◌, if◌then◌else◌, length,
  take, drop,
}
use zai_proxy.Text.{
  Bytes, codes, is_empty, index, has_suffix, replace_all, slice, Outcome, value, panics,
}

pub record ThinkingFilter : Type 0 where
  pub has_seen_first_thinking : Bool
  pub buffer : Bytes
  pub last_output_chunk : Bytes
  pub last_phase : Bytes
  pub thinking_round_count : ℕ

-- `&ThinkingFilter{}`
abbrev pub new_thinking_filter : ThinkingFilter
new_thinking_filter = record {
  has_seen_first_thinking = false;
  buffer = [];
  last_output_chunk = [];
  last_phase = [];
  thinking_round_count = 0;
}

abbrev pub quote_start : Bytes
quote_start = codes "> "

abbrev pub quoted_newline : Bytes
quoted_newline = b'\n' ∷ quote_start

-- The part of `ProcessThinking` behind the search for the first quote.
unfoldable pub process_content : ThinkingFilter → Bytes → Bytes × ThinkingFilter
process_content f delta_content =
    let content = replace_all quoted_newline (b'\n' ∷ []) (f.buffer ++ delta_content) in
    if has_suffix (b'\n' ∷ b'>' ∷ []) content
    then (take (length content - 2) content, record f { buffer = b'\n' ∷ b'>' ∷ [] })
    else if has_suffix (b'\n' ∷ []) content
    then (take (length content - 1) content, record f { buffer = b'\n' ∷ [] })
    else (content, record f { buffer = [] })

unfoldable pub process_thinking : ThinkingFilter → Bytes → Bytes × ThinkingFilter
unfolding index process_content
process_thinking f delta_content =
    let seen = record f { has_seen_first_thinking = true } in
    if not f.has_seen_first_thinking
    then elim (index quote_start delta_content) [
      | some idx ↦ process_content seen (drop (idx + 2) delta_content)
      | none ↦ ([], seen)
    ]
    else process_content f delta_content

unfoldable pub flush_thinking : ThinkingFilter → Bytes × ThinkingFilter
flush_thinking f = (f.buffer, record f { buffer = [] })

-- `index` gives positions in the text, so only `endIdx < startIdx` makes the slice panic.
unfoldable pub extract_complete_thinking : Bytes → Outcome Bytes
unfolding index slice
extract_complete_thinking edit_content = elim (index quote_start edit_content) [
  | none ↦ value []
  | some start_idx ↦ elim (index (b'\n' ∷ codes "</details>") edit_content) [
    | none ↦ value []
    | some end_idx ↦ elim (slice edit_content (start_idx + 2) end_idx) [
      | value content ↦ value (replace_all quoted_newline (b'\n' ∷ []) content)
      | panics ↦ panics
    ]
  ]
]

-- What `ExtractIncrementalThinking` makes of the complete text.
unfoldable pub incremental_part : Bytes → Bytes → Bytes
unfolding index
incremental_part last_output_chunk complete_thinking =
    if is_empty complete_thinking
    then []
    else if is_empty last_output_chunk
    then complete_thinking
    else elim (index last_output_chunk complete_thinking) [
      | none ↦ complete_thinking
      | some idx ↦ drop (idx + length last_output_chunk) complete_thinking
    ]

unfoldable pub extract_incremental_thinking : ThinkingFilter → Bytes → Outcome Bytes
unfolding extract_complete_thinking incremental_part
extract_incremental_thinking f edit_content = elim (extract_complete_thinking edit_content) [
  | value complete ↦ value (incremental_part f.last_output_chunk complete)
  | panics ↦ panics
]

abbrev pub reset_for_new_round : ThinkingFilter → ThinkingFilter
reset_for_new_round f = record f { last_output_chunk = []; has_seen_first_thinking = false }
