-- ===== src/Filter/PromptTool/Tags.antt =====
-- `extractToolCallTags` and `parsePromptToolCallJSON` of internal/filter/prompttool.go. The slices of
-- the source lie in the text: each position is that of a tag, and what was cut out stands behind it.
use zai_proxy.Base.{
  ℕ, zero, suc, ◌+◌, Bool, not, ◌||◌, none, some, List, [], ◌∷◌, ◌++◌, ◌==◌, if◌then◌else◌, take,
  drop,
}
use zai_proxy.Text.{Bytes, codes, is_empty, has_prefix, index, trim_space}
use zai_proxy.Text.Matching.{span_length}
use zai_proxy.Model.Types.{ToolCall}
use zai_proxy.Filter.ToolCall.{RawCall, Json, decode_tool_arguments_field}
use zai_proxy.Filter.PromptTool.Braces.{find_matching_brace}

abbrev pub open_tag : Bytes
open_tag = codes "<tool_call>"

-- The positions of the tags, from the left; the first number counts the bytes of a tag to pass over.
unfoldable pub tag_positions : ℕ → ℕ → Bytes → List ℕ
unfolding has_prefix
tag_positions skip at [] = []
tag_positions (suc skip) at (c ∷ s) = tag_positions skip (suc at) s
tag_positions zero at (c ∷ s) =
    let hit = has_prefix open_tag (c ∷ s) in
    let rest = tag_positions (if hit then 10 else 0) (suc at) s in if hit then at ∷ rest else rest

-- `strings.TrimLeft(s, " \t\n")`
abbrev pub is_blank_byte : ℕ → Bool
is_blank_byte c = c == b' ' || c == b'\t' || c == b'\n'

-- The length of the closing tag behind a block, with the white space before it, or 0.
unfoldable pub close_length : Bytes → ℕ
unfolding span_length has_prefix
close_length remaining =
    let n = span_length is_blank_byte remaining in
    let trimmed = drop n remaining in
    if has_prefix (codes "</tool_call>") trimmed
    then n + 12
    else if has_prefix (codes "</think>") trimmed
    then n + 8
    else 0

-- `quote` is the verb `%q`.
module _ (json : Json) (quote : Bytes → Bytes) where
  unfoldable pub decode_prompt_tool_arguments : Bytes → Bytes
  unfolding decode_tool_arguments_field
  decode_prompt_tool_arguments raw = decode_tool_arguments_field json raw

  abbrev pub prompt_call : RawCall → ToolCall
  prompt_call call =
      let arguments = decode_prompt_tool_arguments call.arguments in
      record {
        id = [];
        kind = [];
        function = record {
          name = call.name;
          arguments =
              if is_empty arguments then decode_prompt_tool_arguments call.input else arguments;
        };
        index = 0;
      }

  unfoldable pub parse_prompt_tool_call_json : Bytes → List ToolCall
  unfolding trim_space decode_prompt_tool_arguments
  parse_prompt_tool_call_json content =
      let trimmed = trim_space content in
      if is_empty trimmed then [] else elim (json.read_call trimmed) [
        | none ↦ []
        | some call ↦ if not (is_empty call.name) then prompt_call call ∷ [] else []
      ]

  -- The object, or the object as the arguments of the name before it.
  unfoldable pub parse_block : Bytes → Bytes → List ToolCall
  unfolding parse_prompt_tool_call_json
  parse_block func_name_prefix json_str = elim (parse_prompt_tool_call_json json_str) [
    | call ∷ calls ↦ call ∷ calls
    | [] ↦
        if is_empty func_name_prefix
        then []
        else parse_prompt_tool_call_json (
            codes "{\"name\": "
            ++ (quote func_name_prefix ++ (codes ", \"arguments\": " ++ (json_str ++ codes "}"))))
  ]

  -- The calls of the block at a position, and where the block ends, if there are any.
  unfoldable pub read_block : ℕ → Bytes → List ToolCall × ℕ
  unfolding index find_matching_brace parse_block close_length trim_space
  read_block tag_start cleaned =
      let after_tag = drop (tag_start + 11) cleaned in
      elim (index (b'{' ∷ []) after_tag) [
        | none ↦ ([], 0)
        | some json_start ↦ elim (find_matching_brace (drop json_start after_tag)) [
          | none ↦ ([], 0)
          | some json_end ↦
              let block_end = tag_start + 11 + json_start + json_end + 1 in
              (
                parse_block (trim_space (take json_start after_tag))
                    (take (json_end + 1) (drop json_start after_tag)),
                block_end + close_length (drop block_end cleaned),
              )
        ]
      ]

  -- The loop from the last tag to the first, on the text and the calls.
  unfoldable pub extract_at : List ℕ → Bytes → Bytes × List ToolCall
  unfolding read_block
  extract_at [] content = (content, [])
  extract_at (p ∷ ps) content =
      let (cleaned, calls) = extract_at ps content in
      let (parsed, block_end) = read_block p cleaned in
      elim parsed [
        | [] ↦ (cleaned, calls)
        | c ∷ cs ↦ (take p cleaned ++ drop block_end cleaned, (c ∷ cs) ++ calls)
      ]

  unfoldable pub extract_tool_call_tags : Bytes → Bytes × List ToolCall
  unfolding tag_positions extract_at
  extract_tool_call_tags content = extract_at (tag_positions 0 0 content) content
