-- ===== src/Tests/Parsers.antt =====
-- The parsers of tool calls at concrete inputs.

use zai_proxy.Text.{has_prefix, codes, Bytes}
use zai_proxy.Filter.ToolCall.Depth.{parse_tool_calls-Calls, Calls, Shrinks}
use zai_proxy.Filter.ToolCall.{RawSingle, parse_tool_calls, RawCall, Json}
use zai_proxy.Filter.PromptTool.Squeeze.{extract_prompt_tool_calls-Extracted, Extracted}
use zai_proxy.Filter.PromptTool.Extract.{extract_prompt_tool_calls}
use zai_proxy.Filter.PromptTool.Braces.{
  escaped, find_matching_brace-object, nothing, object, byte, unit, quoted, inside_text,
  find_matching_brace,
}
use zai_proxy.Base.{
  ◌+◌, ◌≡◌, refl, inl, inr, Option, none, some, List, [], ◌∷◌, ◌++◌, map, arith, ◌==◌,
  if◌then◌else◌, Bool-cases, length,
}

-- JSON of one kind: an array of one element, the text behind the bracket.
abbrev inner_array : Bytes → Option (List Bytes)
inner_array [] = none
inner_array (c ∷ s) = if c == b'[' then some (s ∷ []) else none

abbrev one_call : RawCall
one_call = record { name = codes "f"; arguments = codes "{}"; input = [] }

abbrev no_call : RawCall
no_call = record { name = []; arguments = []; input = [] }

abbrev read_one : Bytes → Option RawSingle
read_one s =
    if has_prefix (codes "{") s
    then some (record { id = []; function = one_call; plain = no_call })
    else none

abbrev pub small_json : Json
small_json = record {
  read_string = λ s. none;
  read_call = λ s. if has_prefix (codes "{") s then some one_call else none;
  read_single = read_one;
  read_array = inner_array;
}

inner_array-shrinks : Shrinks small_json
inner_array-shrinks [] es h = ground arith
inner_array-shrinks (c ∷ s) es h = elim (Bool-cases (c == b'[')) [
  | inl e ↦ let same : es ≡ s ∷ [] = ground arith in rw same (omega arith, tt)
  | inr n ↦ ground arith
]

parse_tool_calls-Calls_example :
    Calls small_json (codes "[[{}") (parse_tool_calls small_json (codes "[[{}"))
parse_tool_calls-Calls_example =
    parse_tool_calls-Calls small_json inner_array-shrinks (codes "[[{}")

nested_call :
    map (λ tc. tc.function.name) (parse_tool_calls small_json (codes "[[{}")) ≡ codes "f" ∷ []
unfolding parse_tool_calls has_prefix
nested_call = refl

-- `{"}\"": {}}`
find_matching_brace-object_example :
    find_matching_brace (
      b'{'
      ∷ (inside_text (quoted (unit b'}' ∷ escaped b'"' ∷ []) (byte b':' (object nothing nothing)))
          ++ b'}' ∷ codes " }"))
    ≡ some (
        1
        + length (
            inside_text
              (quoted (unit b'}' ∷ escaped b'"' ∷ []) (byte b':' (object nothing nothing)))))
find_matching_brace-object_example =
    find_matching_brace-object
      (quoted (unit b'}' ∷ escaped b'"' ∷ []) (byte b':' (object nothing nothing))) (codes " }")
      refl

extract_prompt_tool_calls-Extracted_example :
    Extracted small_json
      (λ s. s)
      (λ i. codes "0")
      (codes "ask <tool_call>{}</tool_call> now")
      (extract_prompt_tool_calls small_json
        (λ s. s)
        (λ i. codes "0")
        (codes "ask <tool_call>{}</tool_call> now"))
extract_prompt_tool_calls-Extracted_example =
    extract_prompt_tool_calls-Extracted small_json (λ s. s) (λ i. codes "0")
      (codes "ask <tool_call>{}</tool_call> now")

text_beside_call :
    extract_prompt_tool_calls small_json
      (λ s. s)
      (λ i. codes "0")
      (codes "ask <tool_call>{}</tool_call> now")
    ≡ (
      codes "ask  now",
      record {
        id = codes "call_0";
        kind = codes "function";
        function = record { name = codes "f"; arguments = codes "{}" };
        index = 0;
      }
          ∷ [],
    )
unfolding extract_prompt_tool_calls
text_beside_call = refl
