-- ===== src/Tests/Conversions.antt =====
-- The conversion of requests at concrete inputs.
use zai_proxy.Text.{bytes_eq, codes, Bytes}
use zai_proxy.Handler.Turn.{AssistantTurn}
use zai_proxy.Handler.Convert.Tools.{convert_tool_choice}
use zai_proxy.Handler.Convert.Results.{convert_user-pieces_of, pieces_of, all_pieces}
use zai_proxy.Model.Json.{as_string, Fields, member, Value, str, obj, end, field}
use zai_proxy.Handler.AnthropicTurn.{ContentBlock, thinking_block, text_block, tool_use_block}
use zai_proxy.Handler.Convert.{
  other_part, convert_user, RequestBlock, text_part, thinking_part, use_part, result_part,
  image_part,
}
use zai_proxy.Base.{◌||◌, if◌then◌else◌, Bool, ◌≡◌, refl, Option, none, some, [], ◌∷◌, map}

-- Blocks as `encoding/json` writes and reads them, a text that is empty being left out. Of the
-- inputs, only objects without fields are taken for JSON here.
abbrev with_text : Bytes → Bytes → Fields → Fields
with_text key [] fs = fs
with_text key (c ∷ t) fs = field key (str (c ∷ t)) fs

abbrev encode_block : ContentBlock → Value
encode_block (thinking_block t) =
    obj (field (codes "type") (str (codes "thinking")) (with_text (codes "thinking") t end))
encode_block (text_block t) =
    obj (field (codes "type") (str (codes "text")) (with_text (codes "text") t end))
encode_block (tool_use_block id name input) = obj (
    field (codes "type") (str (codes "tool_use")) (
      with_text (codes "id") id
        (with_text (codes "name") name (field (codes "input") (obj end) end))))

abbrev is_braces : Bytes → Bool
is_braces s = bytes_eq s (codes "{}") || bytes_eq s (codes "{ }")

abbrev braces : Bytes → Bytes
braces s = codes "{}"

abbrev text_at : Bytes → Fields → Bytes
text_at key fs = elim (as_string (member key fs)) [ none ↦ [] | some t ↦ t ]

abbrev input_of : Value → Option Bytes
input_of (obj end) = some (codes "{}")
input_of _ = none

abbrev read_fields : Bytes → Fields → RequestBlock
read_fields kind fs =
    if bytes_eq kind (codes "text")
    then text_part (text_at (codes "text") fs)
    else if bytes_eq kind (codes "thinking")
    then thinking_part (text_at (codes "thinking") fs)
    else if bytes_eq kind (codes "tool_use")
    then use_part (text_at (codes "id") fs) (text_at (codes "name") fs)
        (input_of (member (codes "input") fs))
    else other_part

abbrev read_object : Value → Option RequestBlock
read_object (obj fs) = some (read_fields (text_at (codes "type") fs) fs)
read_object _ = none

abbrev marshal_none : Value → Option Bytes
marshal_none v = none

abbrev called_turn : AssistantTurn
called_turn = record {
  content = codes "let me see";
  reasoning_content = codes "hm";
  tool_calls =
      record {
        id = codes "toolu_1";
        kind = codes "function";
        function = record { name = codes "f"; arguments = codes "{ }" };
        index = 0;
      }
      ∷ [];
}

convert_user-pieces_of_example :
    all_pieces (
      convert_user read_object marshal_none
        ([], text_part (codes "see") ∷ result_part (codes "toolu_1") (str (codes "4")) ∷ []))
    ≡ pieces_of read_object marshal_none
        (text_part (codes "see") ∷ result_part (codes "toolu_1") (str (codes "4")) ∷ [])
convert_user-pieces_of_example =
    convert_user-pieces_of read_object marshal_none [] (text_part (codes "see"))
      (result_part (codes "toolu_1") (str (codes "4")) ∷ [])

-- A result between two texts makes three messages.
three_messages :
    map
      (λ m. m.role)
      (convert_user read_object marshal_none (
        [],
        text_part (codes "a")
            ∷ result_part (codes "toolu_1") (str (codes "4"))
            ∷ image_part none
            ∷ text_part (codes "b")
            ∷ [],
      ))
    ≡ codes "user" ∷ codes "tool" ∷ codes "user" ∷ []
unfolding convert_user
three_messages = refl

any_tool :
    convert_tool_choice (obj (field (codes "type") (str (codes "any")) end))
    ≡ str (codes "required")
unfolding convert_tool_choice member bytes_eq
any_tool = refl
