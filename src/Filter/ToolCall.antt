-- ===== src/Filter/ToolCall.antt =====
-- internal/filter/toolcall.go: calls of the client's functions in an event's text. Reading JSON is the
-- parameter `json`.
pub mod Arguments
pub mod Depth
pub mod Kinds
use zai_proxy.Base.{
  ℤ, pos, negsuc, positive_or, inc, dec, ℕ, zero, suc, ◌+◌, ◌-◌, ◌*◌, ◌/◌, ◌%◌, ◌^◌, ◌≤◌, ◌<◌, ◌≡◌,
  refl, sym, ap, ◌∙◌, ◌≢◌, ◌↔◌, ◌⊎◌, inl, inr, Bool, true, false, not, ◌&&◌, ◌||◌, Option, none,
  some, List, [], ◌∷◌, ◌++◌, map, append-nil, append_assoc, arith, ltb, leb, ◌==◌, if◌then◌else◌,
  ==_iff, Bool-cases, Option-cases, length, take, drop, length-append, take-append-drop,
  length-drop, drop-append, take-append, All, All-append, All-map,
}
use zai_proxy.Text.{Bytes, codes, is_empty, bytes_eq, has_prefix, contains, index, trim_space}
use zai_proxy.Text.Matching.{Matcher, split_matches}
use zai_proxy.Model.Types.{ToolCall, FunctionCall}

-- A name with the raw texts of `arguments` and `input`; a missing one is empty.
pub record RawCall : Type 0 where
  pub name : Bytes
  pub arguments : Bytes
  pub input : Bytes

-- The struct of `parseToolCallJSON`: the call itself, and the one under `function`.
pub record RawSingle : Type 0 where
  pub id : Bytes
  pub function : RawCall
  pub plain : RawCall

-- `json.Unmarshal` into the types that the filters use, with `none` for an error.
pub record Json : Type 0 where
  pub read_string : Bytes → Option Bytes
  pub read_call : Bytes → Option RawCall
  pub read_single : Bytes → Option RawSingle
  pub read_array : Bytes → Option (List Bytes)

unfoldable pub is_function_tool_call : Bytes → Bytes → Bool
unfolding bytes_eq contains
is_function_tool_call edit_content phase =
    if not (bytes_eq phase (codes "tool_call"))
    then false
    else if contains (codes "\"mcp\"") edit_content || contains (codes "mcp-server") edit_content
    then false
    else if contains (codes "\"search_result\"") edit_content
        || contains (codes "\"search_image\"") edit_content
    then false
    else contains (codes "\"function\"") edit_content
      || contains (codes "\"arguments\"") edit_content
      || contains (codes "\"tool_use\"") edit_content
      || (contains (codes "\"name\"") edit_content && contains (codes "\"input\"") edit_content)

abbrev pub block_open : Bytes
block_open = codes "<glm_block"

abbrev pub block_close : Bytes
block_close = codes "</glm_block>"

-- The body of a block, with the length of the opening tag's attributes and its `>`.
abbrev pub block_body : ℕ → Bytes → Option (ℕ × Bytes)
block_body attributes s = elim (index block_close s) [
  | none ↦ none
  | some n ↦ some (length block_open + attributes + 1 + n + length block_close, take n s)
]

-- `glmToolCallBlockPattern` at the front: `[^>]*` ends at the first `>`.
unfoldable pub glm_tool_call_block : Matcher Bytes
unfolding has_prefix index contains
glm_tool_call_block s =
    let rest = drop (length block_open) s in
    if not (has_prefix block_open s) then none else elim (index (b'>' ∷ []) rest) [
      | none ↦ none
      | some n ↦
          if contains (codes "type=\"tool_call\"") (take n rest)
          then block_body n (drop (suc n) rest)
          else none
    ]

-- The calls of each text, by the parser given.
abbrev pub all_calls : (Bytes → List ToolCall) → List Bytes → List ToolCall
all_calls parse [] = []
all_calls parse (s ∷ ss) = parse s ++ all_calls parse ss

module _ (json : Json) where
  -- A text that is a JSON string is decoded.
  unfoldable pub decode_string : Bytes → Bytes
  decode_string [] = []
  decode_string (c ∷ s) =
      if not (c == b'"')
      then c ∷ s
      else elim (json.read_string (c ∷ s)) [ none ↦ c ∷ s | some decoded ↦ decoded ]

  unfoldable pub decode_tool_arguments_field : Bytes → Bytes
  unfolding bytes_eq trim_space decode_string
  decode_tool_arguments_field raw =
      let trimmed = trim_space raw in
      if is_empty trimmed || bytes_eq trimmed (codes "null") then [] else decode_string trimmed

  -- `arguments`, or `input` where that is empty.
  unfoldable pub call_arguments : RawCall → Bytes
  unfolding decode_tool_arguments_field
  call_arguments c =
      let arguments = decode_tool_arguments_field c.arguments in
      if is_empty arguments then decode_tool_arguments_field c.input else arguments

  abbrev pub function_call : Bytes → RawCall → ToolCall
  function_call id c = record {
    id = id;
    kind = codes "function";
    function = record { name = c.name; arguments = call_arguments c };
    index = 0;
  }

  -- The attempt to read one call.
  unfoldable pub parse_single : Bytes → Option ToolCall
  unfolding call_arguments
  parse_single content = elim (json.read_single content) [
    | none ↦ none
    | some single ↦
        if not (is_empty single.function.name)
        then some (function_call single.id single.function)
        else if not (is_empty single.plain.name)
        then some (function_call single.id single.plain)
        else none
  ]

  -- The body of `parseToolCallJSON`, which calls itself for the elements of an array.
  unfoldable pub parse_step : (Bytes → List ToolCall) → Bytes → List ToolCall
  unfolding trim_space parse_single
  parse_step parse content =
      let trimmed = trim_space content in
      if is_empty trimmed then [] else elim (parse_single trimmed) [
        | some call ↦ call ∷ []
        | none ↦ elim (json.read_array trimmed) [
          | none ↦ []
          | some elements ↦ all_calls parse elements
        ]
      ]

  -- The number bounds the depth of arrays in arrays.
  unfoldable pub parse_tool_call_json : ℕ → Bytes → List ToolCall
  unfolding parse_step
  parse_tool_call_json zero content = []
  parse_tool_call_json (suc depth) content = parse_step (parse_tool_call_json depth) content

  -- The length of the text is a depth that no text exceeds.
  unfoldable pub parse_tool_calls : Bytes → List ToolCall
  unfolding parse_tool_call_json
  parse_tool_calls content = parse_tool_call_json (suc (length content)) content

  unfoldable pub parse_function_tool_calls : Bytes → List ToolCall
  unfolding split_matches glm_tool_call_block parse_tool_calls
  parse_function_tool_calls edit_content =
      elim (all_calls parse_tool_calls (split_matches glm_tool_call_block 0 edit_content).0) [
        | [] ↦ parse_tool_calls edit_content
        | call ∷ calls ↦ call ∷ calls
      ]
