-- ===== src/Handler/AnthropicTurn/Client.antt =====
-- A client of the event stream, which checks the protocol as it reads: blocks start in order, one at
-- a time, each delta fits the open block, and the stream ends with its message delta and stop.
use zai_proxy.Base.{ℕ, suc, Option, none, some, List, [], ◌∷◌, ◌++◌, ◌==◌, if◌then◌else◌}
use zai_proxy.Text.{Bytes}
use zai_proxy.Handler.AnthropicTurn.{
  ContentBlock, thinking_block, text_block, tool_use_block, BlockDelta, thinking_delta, text_delta,
  input_json_delta, AnthropicResponse, Event, message_start, content_block_start,
  content_block_delta, content_block_stop, message_delta, message_stop, anthropic_raw_json,
}

-- The state: nothing yet, between blocks, within a block (with the input read so far, for a tool),
-- behind the message delta, or at the end.
pub data Reading : Type 0 where
  waiting : Reading
  between : AnthropicResponse → ℕ → Reading
  within : AnthropicResponse → ℕ → ContentBlock → Bytes → Reading
  closing : AnthropicResponse → Reading
  ended : AnthropicResponse → Reading
  refused : Reading

-- A delta on the open block.
unfoldable pub add_delta : ContentBlock → Bytes → BlockDelta → Option (ContentBlock × Bytes)
add_delta (thinking_block t) input (thinking_delta d) = some (thinking_block (t ++ d), input)
add_delta (text_block t) input (text_delta d) = some (text_block (t ++ d), input)
add_delta (tool_use_block id name start) input (input_json_delta d) =
    some (tool_use_block id name start, input ++ d)
add_delta _ _ _ = none

-- A complete block. A tool's input is what its deltas spell, and {} if they spell nothing.
unfoldable pub close_block : ContentBlock → Bytes → ContentBlock
close_block (tool_use_block id name start) input = tool_use_block id name (anthropic_raw_json input)
close_block b input = b

unfoldable pub read : Reading → Event → Reading
unfolding add_delta close_block
read waiting (message_start m) = between m 0
read (between m i) (content_block_start j b) = if i == j then within m i b [] else refused
read (between m i) (message_delta reason) = closing (record m { stop_reason = reason })
read (within m i b input) (content_block_delta j d) =
    if i == j
    then elim (add_delta b input d) [ none ↦ refused | some (b', input') ↦ within m i b' input' ]
    else refused
read (within m i b input) (content_block_stop j) =
    if i == j
    then between (record m { content = m.content ++ close_block b input ∷ [] }) (suc i)
    else refused
read (closing m) message_stop = ended m
read _ _ = refused

unfoldable pub read_all : Reading → List Event → Reading
unfolding read
read_all r [] = r
read_all r (e ∷ es) = read_all (read r e) es
