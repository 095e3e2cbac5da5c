-- ===== src/Handler/AnthropicStream/Blocks.antt =====
-- The handling of content blocks in `handleAnthropicStream`, with `emitAnthropicTextDelta` and
-- `emitAnthropicToolUse` of internal/handler/anthropic.go.
use zai_proxy.Handler.Turn.{call_name}
use zai_proxy.Model.Types.{ToolCall}
use zai_proxy.Text.{is_empty, codes, Bytes}
use zai_proxy.Handler.AnthropicTurn.{
  Event, BlockDelta, content_block_start, content_block_delta, content_block_stop, message_start,
  message_delta, message_stop, text_block, thinking_block, tool_use_block, text_delta,
  thinking_delta, input_json_delta,
}
use zai_proxy.Base.{ℕ, suc, Bool, true, false, not, List, [], ◌∷◌, ◌++◌, if◌then◌else◌}

-- The variables that the emitting functions take by pointer, and the events sent so far.
pub record Blocks : Type 0 where
  pub content_block_index : ℕ
  pub in_thinking_block : Bool
  pub in_text_block : Bool
  pub in_tool_use_block : Bool
  pub has_content : Bool
  pub sent : List Event

-- What is to be sent: reasoning, reasoning that was held back, text, or calls with what may be
-- drawn for them.
pub data Emission : Type 0 where
  thought : Bytes → Emission
  remaining : Bytes → Emission
  text : Bytes → Emission
  tool_uses : (ℕ → Bytes) → List ToolCall → Emission

abbrev pub send_event : Event → Blocks → Blocks
send_event e w = record w { sent = w.sent ++ e ∷ [] }

abbrev pub stop_block : Blocks → Blocks
stop_block w = record w {
  sent = w.sent ++ content_block_stop w.content_block_index ∷ [];
  content_block_index = suc w.content_block_index;
}

unfoldable pub close_thinking : Blocks → Blocks
close_thinking w =
    if w.in_thinking_block then record (stop_block w) { in_thinking_block = false } else w

unfoldable pub close_text : Blocks → Blocks
close_text w = if w.in_text_block then record (stop_block w) { in_text_block = false } else w

unfoldable pub close_tool_use : Blocks → Blocks
close_tool_use w =
    if w.in_tool_use_block then record (stop_block w) { in_tool_use_block = false } else w

unfoldable pub start_text : Blocks → Blocks
start_text w =
    if not w.in_text_block
    then record (send_event (content_block_start w.content_block_index (text_block [])) w) {
      in_text_block = true;
    }
    else w

unfoldable pub start_thinking : Blocks → Blocks
start_thinking w =
    if not w.in_thinking_block
    then record (send_event (content_block_start w.content_block_index (thinking_block [])) w) {
      in_thinking_block = true;
    }
    else w

abbrev pub send_delta : BlockDelta → Blocks → Blocks
send_delta d w = record (send_event (content_block_delta w.content_block_index d) w) {
  has_content = true;
}

unfoldable pub emit_anthropic_text_delta : Bytes → Blocks → Blocks
unfolding close_thinking close_tool_use start_text
emit_anthropic_text_delta [] w = w
emit_anthropic_text_delta (c ∷ s) w =
    send_delta (text_delta (c ∷ s)) (start_text (close_tool_use (close_thinking w)))

-- Reasoning of a thinking event.
unfoldable pub emit_thinking : Bytes → Blocks → Blocks
unfolding close_text start_thinking
emit_thinking s w = send_delta (thinking_delta s) (start_thinking (close_text w))

-- Reasoning that is flushed before an answer.
unfoldable pub emit_remaining : Bytes → Blocks → Blocks
unfolding close_text start_thinking
emit_remaining s w =
    send_delta (thinking_delta s)
      (if not w.in_thinking_block then start_thinking (close_text w) else w)

-- One call; `drawn` is the identifier for a call without one.
unfoldable pub emit_anthropic_tool_use : Bytes → ToolCall → Blocks → Blocks
emit_anthropic_tool_use drawn tc w =
    let closed = if w.in_tool_use_block then stop_block w else w in
    let i = closed.content_block_index in
    let id = if is_empty tc.id then codes "toolu_" ++ drawn else tc.id in
    record closed {
      in_tool_use_block = true;
      sent =
          (closed.sent
            ++ content_block_start i (tool_use_block id (call_name tc) (codes "{}")) ∷ [])
          ++ content_block_delta i (input_json_delta tc.function.arguments) ∷ [];
    }

-- The loop over calls, from place `i` on.
unfoldable pub emit_tool_uses : ℕ → (ℕ → Bytes) → List ToolCall → Blocks → Blocks
unfolding emit_anthropic_tool_use
emit_tool_uses i draw [] w = w
emit_tool_uses i draw (tc ∷ tcs) w =
    emit_tool_uses (suc i) draw tcs (emit_anthropic_tool_use (draw i) tc w)

unfoldable pub emit : Emission → Blocks → Blocks
unfolding emit_anthropic_text_delta emit_thinking emit_remaining emit_tool_uses
emit (thought s) w = emit_thinking s w
emit (remaining s) w = emit_remaining s w
emit (text s) w = emit_anthropic_text_delta s w
emit (tool_uses draw tcs) w = emit_tool_uses 0 draw tcs (close_text (close_thinking w))

unfoldable pub emit_all : List Emission → Blocks → Blocks
unfolding emit
emit_all [] w = w
emit_all (e ∷ es) w = emit_all es (emit e w)

-- The start of a message.
abbrev pub opened : Bytes → Bytes → Blocks
opened message_id request_model = record {
  content_block_index = 0;
  in_thinking_block = false;
  in_text_block = false;
  in_tool_use_block = false;
  has_content = false;
  sent =
      message_start
        (record { id = message_id; content = []; model = request_model; stop_reason = [] })
      ∷ [];
}

-- The end: what is open is closed, and the reason is sent.
unfoldable pub end_message : Bool → Blocks → List Event
unfolding close_thinking close_text close_tool_use
end_message has_tool_calls w =
    (close_tool_use (close_text (close_thinking w))).sent
    ++ message_delta (if has_tool_calls then codes "tool_use" else codes "end_turn")
      ∷ message_stop
      ∷ []
