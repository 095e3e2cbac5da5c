-- ===== src/Handler/Convert/Results.antt =====
-- The blocks of a user and the messages that they are converted to.
use zai_proxy.Model.Json.{null, end, num, member, field, bool, obj, as_string, str, nil, cons, arr}
use zai_proxy.Text.{concat, is_empty, Bytes, codes, bytes_eq}
use zai_proxy.Model.Types.{Message}
use zai_proxy.Handler.Convert.{
  json_text, items_text, item_text, AnthropicImageSource, other_part, use_part,
  extract_anthropic_tool_result_content, thinking_part, result_part,
  anthropic_image_block_to_data_url, image_content, image_part, text_item, text_part,
  convert_user_blocks, convert_user, items_of, RequestBlock, Value, Items, flush_user_content,
}
use zai_proxy.Base.{
  inl, not, inr, ◌&&◌, Bool-cases, some, none, ◌≡◌, refl, sym, ap, ◌∙◌, Option, List, [], ◌∷◌, ◌++◌,
  map, append-nil, append_assoc, if◌then◌else◌,
}

-- A piece of a conversation: an item of a user's content, or the answer to a call.
pub data Piece : Type 0 where
  said : Value → Piece
  answered : Bytes → Value → Piece

abbrev pub item_pieces : Items → List Piece
item_pieces nil = []
item_pieces (cons v items) = said v ∷ item_pieces items

abbrev pub content_pieces : Value → List Piece
content_pieces (arr items) = item_pieces items
content_pieces v = said v ∷ []

-- The pieces of a message.
unfoldable pub message_pieces : Message → List Piece
unfolding bytes_eq
message_pieces m =
    if bytes_eq m.role (codes "tool")
    then answered m.tool_call_id m.content ∷ []
    else content_pieces m.content

unfoldable pub all_pieces : List Message → List Piece
unfolding message_pieces
all_pieces [] = []
all_pieces (m ∷ ms) = message_pieces m ++ all_pieces ms

all_pieces-append : (ms ns : List Message) → all_pieces (ms ++ ns) ≡ all_pieces ms ++ all_pieces ns
unfolding all_pieces
all_pieces-append [] ns = refl
all_pieces-append (m ∷ ms) ns =
    ap (◌++◌ (message_pieces m)) (all_pieces-append ms ns)
    ∙ sym (append_assoc (message_pieces m) (all_pieces ms) (all_pieces ns))

item_pieces-items_of : (vs : List Value) → item_pieces (items_of vs) ≡ map said vs
item_pieces-items_of [] = refl
item_pieces-items_of (v ∷ vs) = ap (◌∷◌ (said v)) (item_pieces-items_of vs)

flush_user_content-pieces : (vs : List Value) → all_pieces (flush_user_content vs) ≡ map said vs
unfolding flush_user_content all_pieces message_pieces bytes_eq
flush_user_content-pieces [] = refl
flush_user_content-pieces (v ∷ vs) = rw append-nil (item_pieces-items_of (v ∷ vs))

-- The answer to a call.
all_pieces-result :
    (id : Bytes) (content : Value) (ms : List Message)
    → all_pieces
        (record { role = codes "tool"; content = content; tool_call_id = id; tool_calls = [] } ∷ ms)
      ≡ answered id content ∷ all_pieces ms
unfolding all_pieces message_pieces bytes_eq
all_pieces-result id content ms = refl

map-append : (vs ws : List Value) → map said (vs ++ ws) ≡ map said vs ++ map said ws
map-append [] ws = refl
map-append (v ∷ vs) ws = ap (◌∷◌ (said v)) (map-append vs ws)

-- The texts of the items of a result.
abbrev pub text_of : Value → Bytes
text_of (str t) = t
text_of _ = []

abbrev pub item_text_of : Value → Bytes
item_text_of (obj fields) = text_of (member (codes "text") fields)
item_text_of _ = []

abbrev pub texts_of : Items → List Bytes
texts_of nil = []
texts_of (cons v items) = item_text_of v ∷ texts_of items

item_text-text_of : (v : Value) → elim (as_string v) [ none ↦ [] | some t ↦ t ] ≡ text_of v
item_text-text_of null = refl
item_text-text_of (bool b) = refl
item_text-text_of (num n) = refl
item_text-text_of (str t) = refl
item_text-text_of (arr items) = refl
item_text-text_of (obj fields) = refl

item_text-item_text_of : (v : Value) → item_text v ≡ item_text_of v
unfolding item_text
item_text-item_text_of null = refl
item_text-item_text_of (bool b) = refl
item_text-item_text_of (num n) = refl
item_text-item_text_of (str t) = refl
item_text-item_text_of (arr items) = refl
item_text-item_text_of (obj fields) = item_text-text_of (member (codes "text") fields)

items_text-texts_of : (items : Items) → items_text items ≡ concat (texts_of items)
unfolding items_text
items_text-texts_of nil = refl
items_text-texts_of (cons v items) = rw (item_text-item_text_of v, items_text-texts_of items) refl

-- An image with its data in base64 and a media type, as an item with a data URL.
abbrev pub image_pieces : Option AnthropicImageSource → List Piece
image_pieces none = []
image_pieces (some s) =
    if bytes_eq s.kind (codes "base64") && not (is_empty s.media_type) && not (is_empty s.data_text)
    then said (
        obj (
          field (codes "type") (str (codes "image_url")) (
            field (codes "image_url")
              (obj (
                field (codes "url")
                  (str (codes "data:" ++ (s.media_type ++ (codes ";base64," ++ s.data_text)))) end))
              end)))
      ∷ []
    else []

image_content-image_pieces :
    (source : Option AnthropicImageSource)
    → map said (image_content (anthropic_image_block_to_data_url source)) ≡ image_pieces source
unfolding image_content anthropic_image_block_to_data_url
image_content-image_pieces none = refl
image_content-image_pieces (some s) = elim (Bool-cases (bytes_eq s.kind (codes "base64"))) [
  | inr other ↦ rw other refl
  | inl base ↦ elim (Bool-cases (is_empty s.media_type)) [
    | inl untyped ↦ rw (base, untyped) refl
    | inr typed ↦ elim (Bool-cases (is_empty s.data_text)) [
      | inl blank ↦ rw (base, typed, blank) refl
      | inr filled ↦ rw (base, typed, filled) refl
    ]
  ]
]

module _ (read_block : Value → Option RequestBlock) (marshal : Value → Option Bytes) where
  -- The text, or the JSON of the content if there is none.
  abbrev pub text_or_json : Bytes → Value → Bytes
  text_or_json [] content = elim (marshal content) [ none ↦ [] | some s ↦ s ]
  text_or_json (c ∷ t) content = c ∷ t

  -- The text that a result of a call comes down to.
  abbrev pub result_text : Value → Bytes
  result_text (str s) = s
  result_text (arr items) = text_or_json (concat (texts_of items)) (arr items)
  result_text content = text_or_json [] content

  text_or_json-cases :
      (t : Bytes) (v : Value)
      → (if is_empty t then json_text read_block marshal v else t) ≡ text_or_json t v
  text_or_json-cases [] v = refl
  text_or_json-cases (c ∷ t) v = refl

  extract-result_text :
      (content : Value)
      → extract_anthropic_tool_result_content read_block marshal content ≡ result_text content
  unfolding extract_anthropic_tool_result_content
  extract-result_text null = refl
  extract-result_text (bool b) = refl
  extract-result_text (num n) = refl
  extract-result_text (str s) = refl
  extract-result_text (arr items) =
      text_or_json-cases (items_text items) (arr items)
      ∙ ap (λ t. text_or_json t (arr items)) (items_text-texts_of items)
  extract-result_text (obj fields) = refl

  -- What a block has to say.
  abbrev pub block_pieces : RequestBlock → List Piece
  block_pieces (text_part t) =
      said (obj (field (codes "type") (str (codes "text")) (field (codes "text") (str t) end))) ∷ []
  block_pieces (image_part source) = image_pieces source
  block_pieces (result_part id content) = answered id (str (result_text content)) ∷ []
  block_pieces _ = []

  abbrev pub pieces_of : List RequestBlock → List Piece
  pieces_of [] = []
  pieces_of (b ∷ bs) = block_pieces b ++ pieces_of bs

  convert_user_blocks-pieces :
      (vs : List Value) (bs : List RequestBlock)
      → all_pieces (convert_user_blocks read_block marshal vs bs) ≡ map said vs ++ pieces_of bs
  unfolding convert_user_blocks
  convert_user_blocks-pieces vs [] = flush_user_content-pieces vs ∙ sym (append-nil (map said vs))
  convert_user_blocks-pieces vs (text_part t ∷ bs) =
      convert_user_blocks-pieces (vs ++ text_item t ∷ []) bs ∙ simp (map-append, append_assoc)
  convert_user_blocks-pieces vs (image_part source ∷ bs) =
      convert_user_blocks-pieces (vs ++ image_content (anthropic_image_block_to_data_url source)) bs
      ∙ simp (map-append, append_assoc, image_content-image_pieces)
  convert_user_blocks-pieces vs (result_part id content ∷ bs) =
      all_pieces-append (flush_user_content vs) _
      ∙ rw (flush_user_content-pieces vs) (
          ap (◌++◌ (map said vs)) (
            all_pieces-result id
              (str (extract_anthropic_tool_result_content read_block marshal content))
              (convert_user_blocks read_block marshal [] bs)
            ∙ ap
                (λ t.
                  answered id (str t) ∷ all_pieces (convert_user_blocks read_block marshal [] bs))
                (extract-result_text content)
            ∙ ap (◌∷◌ (answered id (str (result_text content))))
                (convert_user_blocks-pieces [] bs)))
  convert_user_blocks-pieces vs (thinking_part t ∷ bs) = convert_user_blocks-pieces vs bs
  convert_user_blocks-pieces vs (use_part id name input ∷ bs) = convert_user_blocks-pieces vs bs
  convert_user_blocks-pieces vs (other_part ∷ bs) = convert_user_blocks-pieces vs bs

  -- The messages that the blocks of a user are converted to hold, in the order of the blocks, every
  -- text, every image that has a media type and data in base64, as a data URL, and every result of a
  -- call with its identifier, as the texts of its content or, without any, its JSON; and nothing
  -- else, for every list of blocks. An image by URL is dropped.
  pub convert_user-pieces_of :
      (text : Bytes) (b : RequestBlock) (bs : List RequestBlock)
      → all_pieces (convert_user read_block marshal (text, b ∷ bs)) ≡ pieces_of (b ∷ bs)
  unfolding convert_user
  convert_user-pieces_of text b bs = convert_user_blocks-pieces [] (b ∷ bs)
