-- ===== src/Handler/AnthropicTurn/Agreement.antt =====
-- `writeAnthropicStreamTurn` against `writeAnthropicNonStreamTurn`.
use zai_proxy.Base.{
  inr, inl, Bool-cases, none, ◌⊎◌, ◌&&◌, Bool, ℕ, suc, ◌+◌, ◌≡◌, refl, sym, ap, ◌∙◌, true, false,
  some, List, [], ◌∷◌, ◌++◌, append-nil, append_assoc, arith, if◌then◌else◌, length, All,
}
use zai_proxy.Text.{is_blank, Bytes, codes, is_empty}
use zai_proxy.Model.Types.{ToolCall}
use zai_proxy.Handler.Turn.{AssistantTurn, call_name}
use zai_proxy.Handler.AnthropicTurn.{
  turn_response, can_encode, content_block_start, content_block_delta, content_block_stop,
  input_json_delta, ContentBlock, thinking_block, text_block, tool_use_block, AnthropicResponse,
  Event, message_delta, message_stop, anthropic_raw_json, tool_use_blocks, turn_stop_reason,
  or_empty_text, write_anthropic_non_stream_turn, stream_thinking, stream_text, stream_tool_calls,
  stream_blocks, write_anthropic_stream_turn,
}
use zai_proxy.Handler.AnthropicTurn.Client.{Reading, waiting, between, ended, read, read_all}

pub read_all-append :
    (r : Reading) (es fs : List Event) → read_all r (es ++ fs) ≡ read_all (read_all r es) fs
unfolding read_all
read_all-append r [] fs = refl
read_all-append r (e ∷ es) fs = read_all-append (read r e) es fs

-- The message with more blocks.
abbrev with_blocks : AnthropicResponse → List ContentBlock → AnthropicResponse
with_blocks m bs = record m { content = m.content ++ bs }

read-stream_thinking :
    (m : AnthropicResponse) (i : ℕ) (t : Bytes)
    → read_all (between m i) (stream_thinking i t)
      ≡ between (with_blocks m (thinking_block t ∷ [])) (suc i)
unfolding read_all stream_thinking
read-stream_thinking m i t = ground arith

read-stream_text :
    (m : AnthropicResponse) (i : ℕ) (t : Bytes)
    → read_all (between m i) (stream_text i t) ≡ between (with_blocks m (text_block t ∷ [])) (suc i)
unfolding read_all stream_text
read-stream_text m i [] = ground arith
read-stream_text m i (c ∷ t) = ground arith

-- Every call has an identifier.
abbrev pub Identified : List ToolCall → Type 0
Identified = All (λ tc. is_empty tc.id ≡ false)

-- The events of one call.
read_call :
    (m : AnthropicResponse) (i : ℕ) (id name args : Bytes)
    → read_all (between m i) (
        content_block_start i (tool_use_block id name (codes "{}"))
        ∷ content_block_delta i (input_json_delta args)
        ∷ content_block_stop i
        ∷ [])
      ≡ between (with_blocks m (tool_use_block id name (anthropic_raw_json args) ∷ [])) (suc i)
unfolding read_all
read_call m i id name args = ground arith

read-stream_tool_calls :
    (fresh : ℕ → Bytes) (tcs : List ToolCall) (m : AnthropicResponse) (i : ℕ)
    → Identified tcs
    → read_all (between m i) (stream_tool_calls fresh i tcs)
      ≡ between (with_blocks m (tool_use_blocks tcs)) (length tcs + i)
unfolding stream_tool_calls tool_use_blocks read_all
read-stream_tool_calls fresh [] m i h =
    ap (between m) (omega arith)
    ∙ ap (λ bs. between (record m { content = bs }) (0 + i)) (sym (append-nil m.content))
read-stream_tool_calls fresh (tc ∷ tcs) m i h = rw h.0 (
    read_all-append (between m i)
      (content_block_start i (tool_use_block tc.id (call_name tc) (codes "{}"))
        ∷ content_block_delta i (input_json_delta tc.function.arguments)
        ∷ content_block_stop i
        ∷ [])
      (stream_tool_calls fresh (suc i) tcs)
    ∙ ap (λ r. read_all r (stream_tool_calls fresh (suc i) tcs))
        (read_call m i tc.id (call_name tc) tc.function.arguments)
    ∙ read-stream_tool_calls fresh tcs _ (suc i) h.1
    ∙ next_index m (length tcs) i
        (tool_use_block tc.id (call_name tc) (anthropic_raw_json tc.function.arguments))
        (tool_use_blocks tcs))
  where
    next_index :
        (m : AnthropicResponse) (n i : ℕ) (b : ContentBlock) (bs : List ContentBlock)
        → between (with_blocks (with_blocks m (b ∷ [])) bs) (n + suc i)
          ≡ between (with_blocks m (b ∷ bs)) (suc n + i)
    next_index m n i b bs = ground (arith, append_assoc m.content (b ∷ []) bs)

abbrev blocks_of : Bytes → Bytes → List ToolCall → List ContentBlock
blocks_of thinking text tcs = or_empty_text (
    (if is_empty thinking then [] else thinking_block thinking ∷ [])
    ++ ((if is_empty text then [] else text_block text ∷ []) ++ tool_use_blocks tcs))

-- The arguments of every call are JSON, or blank, for which {} stands.
abbrev pub all_inputs : (Bytes → Bool) → List ToolCall → Bool
all_inputs is_json [] = true
all_inputs is_json (tc ∷ tcs) =
    is_json (if is_blank tc.function.arguments then codes "{}" else tc.function.arguments)
    && all_inputs is_json tcs

can_encode-tool_use_blocks :
    (is_json : Bytes → Bool) (tcs : List ToolCall)
    → can_encode is_json (tool_use_blocks tcs) ≡ all_inputs is_json tcs
unfolding can_encode tool_use_blocks anthropic_raw_json
can_encode-tool_use_blocks is_json [] = refl
can_encode-tool_use_blocks is_json (tc ∷ tcs) =
    ap (◌&&◌ (is_json (anthropic_raw_json tc.function.arguments)))
      (can_encode-tool_use_blocks is_json tcs)

can_encode-blocks_of :
    (is_json : Bytes → Bool) (thinking text : Bytes) (tcs : List ToolCall)
    → can_encode is_json (blocks_of thinking text tcs) ≡ all_inputs is_json tcs
unfolding can_encode tool_use_blocks
can_encode-blocks_of is_json [] [] [] = refl
can_encode-blocks_of is_json [] [] (tc ∷ tcs) = can_encode-tool_use_blocks is_json (tc ∷ tcs)
can_encode-blocks_of is_json [] (d ∷ t) tcs = can_encode-tool_use_blocks is_json tcs
can_encode-blocks_of is_json (c ∷ r) [] tcs = can_encode-tool_use_blocks is_json tcs
can_encode-blocks_of is_json (c ∷ r) (d ∷ t) tcs = can_encode-tool_use_blocks is_json tcs

write-all_inputs :
    (message_id request_model : Bytes) (is_json : Bytes → Bool) (turn : AssistantTurn)
    → let response = turn_response message_id request_model turn in
      let sent = write_anthropic_non_stream_turn is_json message_id request_model turn in
      ((all_inputs is_json turn.tool_calls ≡ true) × (sent ≡ some response))
      ⊎ ((all_inputs is_json turn.tool_calls ≡ false) × (sent ≡ none))
unfolding write_anthropic_non_stream_turn turn_response
write-all_inputs message_id request_model is_json turn =
    let e = can_encode-blocks_of is_json turn.reasoning_content turn.content turn.tool_calls in
    elim (Bool-cases (all_inputs is_json turn.tool_calls)) [
      | inl valid ↦ inl (valid, rw (e ∙ valid) refl)
      | inr broken ↦ inr (broken, rw (e ∙ broken) refl)
    ]

read_then :
    (r r' : Reading) (es fs : List Event)
    → read_all r es ≡ r'
    → read_all r (es ++ fs) ≡ read_all r' fs
read_then r r' es fs e = read_all-append r es fs ∙ ap (λ q. read_all q fs) e

module _ (fresh : ℕ → Bytes) (message_id request_model : Bytes) where
  abbrev message_with : List ContentBlock → AnthropicResponse
  message_with bs = record {
    id = message_id;
    content = bs;
    model = request_model;
    stop_reason = [];
  }

  -- The blocks of a stream are those of the message, for each way in which parts may be missing.
  read-stream_blocks :
      (thinking text : Bytes) (tcs : List ToolCall)
      → Identified tcs
      → (i : ℕ) × (read_all (between (message_with []) 0) (
            stream_blocks fresh
              (record { content = text; reasoning_content = thinking; tool_calls = tcs }))
          ≡ between (message_with (blocks_of thinking text tcs)) i)
  unfolding stream_blocks tool_use_blocks
  read-stream_blocks [] [] [] h = (
    1,
    read_then _ _ (stream_text 0 []) (stream_tool_calls fresh 1 []) (read-stream_text _ 0 [])
        ∙ read-stream_tool_calls fresh [] _ 1 h,
  )
  read-stream_blocks [] [] (tc ∷ tcs) h =
      (length (tc ∷ tcs) + 0, read-stream_tool_calls fresh (tc ∷ tcs) (message_with []) 0 h)
  read-stream_blocks [] (d ∷ t) tcs h = (
    length tcs + 1,
    read_then _ _ (stream_text 0 (d ∷ t)) (stream_tool_calls fresh 1 tcs)
          (read-stream_text _ 0 (d ∷ t))
        ∙ read-stream_tool_calls fresh tcs _ 1 h,
  )
  read-stream_blocks (c ∷ r) [] tcs h = (
    length tcs + 1,
    read_then _ _ (stream_thinking 0 (c ∷ r)) (stream_tool_calls fresh 1 tcs)
          (read-stream_thinking _ 0 (c ∷ r))
        ∙ read-stream_tool_calls fresh tcs _ 1 h,
  )
  read-stream_blocks (c ∷ r) (d ∷ t) tcs h = (
    length tcs + 2,
    read_then _ _ (stream_thinking 0 (c ∷ r))
          (stream_text 1 (d ∷ t) ++ stream_tool_calls fresh 2 tcs)
          (read-stream_thinking _ 0 (c ∷ r))
        ∙ read_then _ _ (stream_text 1 (d ∷ t)) (stream_tool_calls fresh 2 tcs)
            (read-stream_text _ 1 (d ∷ t))
        ∙ read-stream_tool_calls fresh tcs _ 2 h,
  )

  read_end :
      (m : AnthropicResponse) (i : ℕ) (reason : Bytes)
      → read_all (between m i) (message_delta reason ∷ message_stop ∷ [])
        ≡ ended (record m { stop_reason = reason })
  unfolding read_all
  read_end m i reason = refl

  -- To a writer that can flush, the events of a turn whose calls all have identifiers follow the
  -- protocol of the stream, and the message that a client puts together from them is the response
  -- that is built without streaming. If the arguments of every call are JSON, or blank, this is also
  -- what is sent without streaming; if those of some call are not, an empty body is sent there.
  pub read-write_anthropic_stream_turn :
      (is_json : Bytes → Bool) (turn : AssistantTurn)
      → Identified turn.tool_calls
      → let response = turn_response message_id request_model turn in
        let sent = write_anthropic_non_stream_turn is_json message_id request_model turn in
        (events : List Event) × (write_anthropic_stream_turn fresh message_id request_model true
            turn
          ≡ some events)
        × (read_all waiting events ≡ ended response)
        × (((all_inputs is_json turn.tool_calls ≡ true) × (sent ≡ some response))
            ⊎ ((all_inputs is_json turn.tool_calls ≡ false) × (sent ≡ none)))
  unfolding write_anthropic_stream_turn turn_response read_all
  read-write_anthropic_stream_turn is_json turn h =
      let (i, blocks) = read-stream_blocks turn.reasoning_content turn.content turn.tool_calls h in
      (
        _,
        refl,
        read_then _ _ (stream_blocks fresh turn)
              (message_delta (turn_stop_reason turn) ∷ message_stop ∷ []) blocks
            ∙ read_end
                (message_with (blocks_of turn.reasoning_content turn.content turn.tool_calls)) i
                (turn_stop_reason turn),
        write-all_inputs message_id request_model is_json turn,
      )
