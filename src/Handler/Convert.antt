-- ===== src/Handler/Convert.antt =====
-- `convertAnthropicToInternal` of internal/handler/anthropic.go: the messages of a request. The reading
-- of a block from JSON and the writing of JSON are the parameters of the section.
pub mod Tools
pub mod History
pub mod Results
use zai_proxy.Text.{is_empty, codes, bytes_eq, Bytes}
use zai_proxy.Model.Types.{ToolCall, Message}
use zai_proxy.Model.Json.{
  as_string, as_object, member, Value, Items, Fields, null, str, arr, obj, nil, cons, end, field,
}
use zai_proxy.Base.{
  ℤ, pos, negsuc, positive_or, inc, dec, ℕ, zero, suc, ◌+◌, ◌-◌, ◌*◌, ◌/◌, ◌%◌, ◌^◌, ◌≤◌, ◌<◌, ◌≡◌,
  refl, sym, ap, ◌∙◌, ◌≢◌, ◌↔◌, ◌⊎◌, inl, inr, Bool, true, false, not, ◌&&◌, ◌||◌, Option, none,
  some, List, [], ◌∷◌, ◌++◌, map, append-nil, append_assoc, arith, ltb, leb, ◌==◌, if◌then◌else◌,
  ==_iff, Bool-cases, Option-cases, length, take, drop, length-append, take-append-drop,
  length-drop, drop-append, take-append, All, All-append, All-map,
}

pub record AnthropicImageSource : Type 0 where
  pub kind : Bytes  -- `Type`
  pub media_type : Bytes
  pub data_text : Bytes  -- `Data`

-- A content block of a request, by its type; an input or a source may be missing.
pub data RequestBlock : Type 0 where
  text_part : Bytes → RequestBlock
  thinking_part : Bytes → RequestBlock
  image_part : Option AnthropicImageSource → RequestBlock
  use_part : Bytes → Bytes → Option Bytes → RequestBlock
  result_part : Bytes → Value → RequestBlock
  other_part : RequestBlock

pub record AnthropicMessage : Type 0 where
  pub role : Bytes
  pub content : Value

abbrev pub plain_message : Bytes → Value → Message
plain_message role content = record {
  role = role;
  content = content;
  tool_call_id = [];
  tool_calls = [];
}

unfoldable pub anthropic_image_block_to_data_url : Option AnthropicImageSource → Bytes
unfolding bytes_eq
anthropic_image_block_to_data_url none = []
anthropic_image_block_to_data_url (some s) =
    if not (bytes_eq s.kind (codes "base64")) || is_empty s.media_type || is_empty s.data_text
    then []
    else codes "data:" ++ (s.media_type ++ (codes ";base64," ++ s.data_text))

abbrev pub items_of : List Value → Items
items_of [] = nil
items_of (v ∷ vs) = cons v (items_of vs)

abbrev pub text_item : Bytes → Value
text_item t = obj (field (codes "type") (str (codes "text")) (field (codes "text") (str t) end))

abbrev pub image_item : Bytes → Value
image_item url = obj (
    field (codes "type") (str (codes "image_url"))
      (field (codes "image_url") (obj (field (codes "url") (str url) end)) end))

-- The text of an item that is an object with a text.
unfoldable pub item_text : Value → Bytes
unfolding member
item_text v = elim (as_object v) [
  | none ↦ []
  | some fields ↦ elim (as_string (member (codes "text") fields)) [ none ↦ [] | some t ↦ t ]
]

unfoldable pub items_text : Items → Bytes
unfolding item_text
items_text nil = []
items_text (cons v items) = item_text v ++ items_text items

-- The content gathered for a message of the user.
unfoldable pub flush_user_content : List Value → List Message
flush_user_content [] = []
flush_user_content (v ∷ vs) = plain_message (codes "user") (arr (items_of (v ∷ vs))) ∷ []

-- An image without data gives nothing.
unfoldable pub image_content : Bytes → List Value
image_content [] = []
image_content (c ∷ url) = image_item (c ∷ url) ∷ []

-- The text and the calls of the blocks of the assistant.
unfoldable pub block_text : List RequestBlock → Bytes
block_text [] = []
block_text (text_part t ∷ bs) = t ++ block_text bs
block_text (_ ∷ bs) = block_text bs

unfoldable pub block_calls : List RequestBlock → List ToolCall
block_calls [] = []
block_calls (use_part id name input ∷ bs) =
    record {
      id = id;
      kind = codes "function";
      function = record {
        name = name;
        arguments = elim input [ none ↦ codes "{}" | some raw ↦ raw ];
      };
      index = 0;
    }
    ∷ block_calls bs
block_calls (_ ∷ bs) = block_calls bs

module _ (read_block : Value → Option RequestBlock) (marshal : Value → Option Bytes) where
  -- Blocks that cannot be read are left out.
  unfoldable pub read_blocks : Items → List RequestBlock
  read_blocks nil = []
  read_blocks (cons v items) = elim (read_block v) [
    | none ↦ read_blocks items
    | some b ↦ b ∷ read_blocks items
  ]

  -- `ParseContent`
  unfoldable pub parse_content : Value → Bytes × List RequestBlock
  unfolding read_blocks block_text
  parse_content (str s) = (s, [])
  parse_content (arr items) = (block_text (read_blocks items), read_blocks items)
  parse_content _ = ([], [])

  abbrev pub json_text : Value → Bytes
  json_text v = elim (marshal v) [ none ↦ [] | some s ↦ s ]

  unfoldable pub extract_anthropic_tool_result_content : Value → Bytes
  unfolding items_text
  extract_anthropic_tool_result_content (str s) = s
  extract_anthropic_tool_result_content (arr items) =
      if is_empty (items_text items) then json_text (arr items) else items_text items
  extract_anthropic_tool_result_content v = json_text v

  -- The loop over the blocks of a user, with the content gathered so far.
  unfoldable pub convert_user_blocks : List Value → List RequestBlock → List Message
  unfolding flush_user_content image_content anthropic_image_block_to_data_url
      extract_anthropic_tool_result_content
  convert_user_blocks user_content [] = flush_user_content user_content
  convert_user_blocks user_content (text_part t ∷ bs) =
      convert_user_blocks (user_content ++ text_item t ∷ []) bs
  convert_user_blocks user_content (image_part source ∷ bs) =
      convert_user_blocks (user_content ++ image_content (anthropic_image_block_to_data_url source))
        bs
  convert_user_blocks user_content (result_part id content ∷ bs) =
      flush_user_content user_content
      ++ record {
        role = codes "tool";
        content = str (extract_anthropic_tool_result_content content);
        tool_call_id = id;
        tool_calls = [];
      }
        ∷ convert_user_blocks [] bs
  convert_user_blocks user_content (_ ∷ bs) = convert_user_blocks user_content bs

  unfoldable pub convert_user : Bytes × List RequestBlock → List Message
  unfolding convert_user_blocks
  convert_user (text, []) = plain_message (codes "user") (str text) ∷ []
  convert_user (text, b ∷ bs) = convert_user_blocks [] (b ∷ bs)

  unfoldable pub convert_assistant : Bytes × List RequestBlock → List Message
  unfolding block_text block_calls
  convert_assistant (text, []) = plain_message (codes "assistant") (str text) ∷ []
  convert_assistant (text, b ∷ bs) =
      record {
        role = codes "assistant";
        content = str (block_text (b ∷ bs));
        tool_call_id = [];
        tool_calls = block_calls (b ∷ bs);
      }
      ∷ []

  -- A message by its role; another role gives none.
  unfoldable pub convert_message : AnthropicMessage → List Message
  unfolding bytes_eq parse_content convert_user convert_assistant
  convert_message msg =
      if bytes_eq msg.role (codes "user")
      then convert_user (parse_content msg.content)
      else if bytes_eq msg.role (codes "assistant")
      then convert_assistant (parse_content msg.content)
      else []

  unfoldable pub convert_messages : List AnthropicMessage → List Message
  unfolding convert_message
  convert_messages [] = []
  convert_messages (m ∷ ms) = convert_message m ++ convert_messages ms

-- The text of the system field; a missing field is `null`.
unfoldable pub system_text : Value → Bytes
unfolding items_text
system_text (str s) = s
system_text (arr items) = items_text items
system_text _ = []

unfoldable pub system_messages : Value → List Message
unfolding system_text
system_messages system =
    if is_empty (system_text system)
    then []
    else plain_message (codes "system") (str (system_text system)) ∷ []
