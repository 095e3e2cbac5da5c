-- ===== src/Handler/Convert/History.antt =====
-- The proxy's answer, sent back by the client as history, and `convertAnthropicToInternal`.
use zai_proxy.Model.Json.{str}
use zai_proxy.Text.{is_blank, Bytes, codes}
use zai_proxy.Model.Types.{Message, ToolCall}
use zai_proxy.Handler.Turn.{AssistantTurn}
use zai_proxy.Handler.Convert.{
  other_part, result_part, use_part, image_part, thinking_part, text_part, Value, RequestBlock,
  block_text,
}
use zai_proxy.Handler.AnthropicTurn.{
  can_encode, tool_use_block, text_block, thinking_block, ContentBlock,
}
use zai_proxy.Base.{
  true, Bool, ◌≡◌, refl, sym, ap, ◌∙◌, Option, some, List, [], ◌∷◌, ◌++◌, map, append_assoc,
  if◌then◌else◌,
}

block_text-append :
    (as' bs : List RequestBlock) → block_text (as' ++ bs) ≡ block_text as' ++ block_text bs
unfolding block_text
block_text-append [] bs = refl
block_text-append (text_part t ∷ as') bs =
    ap (◌++◌ t) (block_text-append as' bs) ∙ sym (append_assoc t (block_text as') (block_text bs))
block_text-append (thinking_part t ∷ as') bs = block_text-append as' bs
block_text-append (image_part s ∷ as') bs = block_text-append as' bs
block_text-append (use_part id name input ∷ as') bs = block_text-append as' bs
block_text-append (result_part id content ∷ as') bs = block_text-append as' bs
block_text-append (other_part ∷ as') bs = block_text-append as' bs

-- `canonical` is the text that an input comes back as: it is read into an `interface{}` and written
-- again, with its keys in order and without spaces.
module _ (canonical : Bytes → Bytes) where
  -- A block of an answer as a block of a request.
  abbrev pub echo : ContentBlock → RequestBlock
  echo (thinking_block t) = thinking_part t
  echo (text_block t) = text_part t
  echo (tool_use_block id name input) = use_part id name (some (canonical input))

  -- A call as it comes back: the input is never blank, and a call has no index.
  abbrev pub returned_call : ToolCall → ToolCall
  returned_call tc = record tc {
    kind = codes "function";
    function = record {
      name = tc.function.name;
      arguments =
          canonical (if is_blank tc.function.arguments then codes "{}" else tc.function.arguments);
    };
    index = 0;
  }

  -- The message that the assistant's turn is in the history.
  abbrev pub history_message : AssistantTurn → Message
  history_message turn = record {
    role = codes "assistant";
    content = str turn.content;
    tool_call_id = [];
    tool_calls = map returned_call turn.tool_calls;
  }

  module _ (read_block : Value → Option RequestBlock) (marshal : Value → Option Bytes)
      (encode : ContentBlock → Value) (is_json : Bytes → Bool) where
    -- A block that can be written as JSON is read again, with its input in canonical form.
    abbrev pub ReadsBack : Type 0
    ReadsBack =
        (b : ContentBlock)
        → can_encode is_json (b ∷ []) ≡ true
        → read_block (encode b) ≡ some (echo b)
