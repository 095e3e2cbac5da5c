-- ===== src/Handler/AnthropicTurn.antt =====
-- `writeAnthropicNonStreamTurn` and `writeAnthropicStreamTurn` of internal/handler/assistant_turn.go,
-- and `anthropicRawJSON`: the same turn as one message, and as a stream of events.
pub mod Client
pub mod Agreement
use zai_proxy.Base.{
  ℕ, suc, ◌+◌, Bool, true, false, not, ◌&&◌, ◌||◌, Option, none, some, List, [], ◌∷◌, ◌++◌,
  if◌then◌else◌,
}
use zai_proxy.Text.{Bytes, codes, is_empty, is_blank}
use zai_proxy.Model.Types.{ToolCall}
use zai_proxy.Handler.Turn.{AssistantTurn, call_name, is_nil}

-- The content blocks that the proxy sends; the source has one struct with a `Type`.
pub data ContentBlock : Type 0 where
  thinking_block : Bytes → ContentBlock
  text_block : Bytes → ContentBlock
  tool_use_block : Bytes → Bytes → Bytes → ContentBlock  -- identifier, name, input

pub data BlockDelta : Type 0 where
  thinking_delta : Bytes → BlockDelta
  text_delta : Bytes → BlockDelta
  input_json_delta : Bytes → BlockDelta

-- A complete response; its usage counts are zero.
pub record AnthropicResponse : Type 0 where
  pub id : Bytes
  pub content : List ContentBlock
  pub model : Bytes
  pub stop_reason : Bytes

pub data Event : Type 0 where
  message_start : AnthropicResponse → Event
  content_block_start : ℕ → ContentBlock → Event
  content_block_delta : ℕ → BlockDelta → Event
  content_block_stop : ℕ → Event
  message_delta : Bytes → Event
  message_stop : Event

unfoldable pub anthropic_raw_json : Bytes → Bytes
anthropic_raw_json arguments = if is_blank arguments then codes "{}" else arguments

unfoldable pub turn_stop_reason : AssistantTurn → Bytes
turn_stop_reason turn = if is_nil turn.tool_calls then codes "end_turn" else codes "tool_use"

-- The loop over the calls, without streaming.
unfoldable pub tool_use_blocks : List ToolCall → List ContentBlock
unfolding anthropic_raw_json
tool_use_blocks [] = []
tool_use_blocks (tc ∷ tcs) =
    tool_use_block tc.id (call_name tc) (anthropic_raw_json tc.function.arguments)
    ∷ tool_use_blocks tcs

abbrev pub or_empty_text : List ContentBlock → List ContentBlock
or_empty_text [] = text_block [] ∷ []
or_empty_text (b ∷ bs) = b ∷ bs

-- The response of a turn, as it is built.
unfoldable pub turn_response : Bytes → Bytes → AssistantTurn → AnthropicResponse
unfolding tool_use_blocks turn_stop_reason
turn_response message_id request_model turn = record {
  id = message_id;
  content = or_empty_text (
      (if is_empty turn.reasoning_content then [] else thinking_block turn.reasoning_content ∷ [])
      ++ ((if is_empty turn.content then [] else text_block turn.content ∷ [])
          ++ tool_use_blocks turn.tool_calls));
  model = request_model;
  stop_reason = turn_stop_reason turn;
}

-- Whether `Encode` can write the blocks: the input of a call, a `json.RawMessage`, has to be JSON,
-- which the parameter `is_json` tells.
unfoldable pub can_encode : (Bytes → Bool) → List ContentBlock → Bool
can_encode is_json [] = true
can_encode is_json (tool_use_block id name input ∷ bs) = is_json input && can_encode is_json bs
can_encode is_json (_ ∷ bs) = can_encode is_json bs

-- The message that is sent, or `none` for an empty body: the error of `Encode` is dropped.
unfoldable pub write_anthropic_non_stream_turn :
    (Bytes → Bool) → Bytes → Bytes → AssistantTurn → Option AnthropicResponse
unfolding turn_response can_encode
write_anthropic_non_stream_turn is_json message_id request_model turn =
    let response = turn_response message_id request_model turn in
    if can_encode is_json response.content then some response else none

-- The thinking block of a stream.
unfoldable pub stream_thinking : ℕ → Bytes → List Event
stream_thinking i thinking =
    content_block_start i (thinking_block [])
    ∷ content_block_delta i (thinking_delta thinking)
    ∷ content_block_stop i
    ∷ []

-- The text block; an empty text has no delta.
unfoldable pub stream_text : ℕ → Bytes → List Event
stream_text i text =
    content_block_start i (text_block [])
    ∷ ((if is_empty text then [] else content_block_delta i (text_delta text) ∷ [])
        ++ content_block_stop i ∷ [])

-- The loop over the calls. `fresh i` is the identifier drawn for a call without one, as block `i`.
unfoldable pub stream_tool_calls : (ℕ → Bytes) → ℕ → List ToolCall → List Event
stream_tool_calls fresh i [] = []
stream_tool_calls fresh i (tc ∷ tcs) =
    content_block_start i
      (tool_use_block (if is_empty tc.id then fresh i else tc.id) (call_name tc) (codes "{}"))
    ∷ content_block_delta i (input_json_delta tc.function.arguments)
    ∷ content_block_stop i
    ∷ stream_tool_calls fresh (suc i) tcs

-- The blocks of a stream in order, with `contentBlockIndex` as it goes.
unfoldable pub stream_blocks : (ℕ → Bytes) → AssistantTurn → List Event
unfolding stream_thinking stream_text stream_tool_calls
stream_blocks fresh turn =
    let thinks = not (is_empty turn.reasoning_content) in
    let writes = not (is_empty turn.content) || (not thinks && is_nil turn.tool_calls) in
    let after_thinking : ℕ = if thinks then 1 else 0 in
    let after_text = if writes then suc after_thinking else after_thinking in
    (if thinks then stream_thinking 0 turn.reasoning_content else [])
    ++ ((if writes then stream_text after_thinking turn.content else [])
        ++ stream_tool_calls fresh after_text turn.tool_calls)

-- The events, or `none` for the error response, when the writer cannot flush.
unfoldable pub write_anthropic_stream_turn :
    (ℕ → Bytes) → Bytes → Bytes → Bool → AssistantTurn → Option (List Event)
unfolding stream_blocks turn_stop_reason
write_anthropic_stream_turn fresh message_id request_model false turn = none
write_anthropic_stream_turn fresh message_id request_model true turn = some (
    message_start
      (record { id = message_id; content = []; model = request_model; stop_reason = [] })
    ∷ (stream_blocks fresh turn ++ message_delta (turn_stop_reason turn) ∷ message_stop ∷ []))
