-- ===== src/Handler/AnthropicStream/Steps.antt =====
-- Reasoning and text of the stream of `handleAnthropicStream`, as a client reads them.
use zai_proxy.Text.{codes, Bytes}
use zai_proxy.Handler.AnthropicTurn.{
  anthropic_raw_json, BlockDelta, Event, ContentBlock, content_block_start, content_block_delta,
  content_block_stop, text_block, thinking_block, tool_use_block, text_delta, thinking_delta,
}
use zai_proxy.Handler.AnthropicTurn.Client.{close_block, add_delta, within, waiting, read_all}
use zai_proxy.Handler.AnthropicStream.Blocks.{
  Blocks, emit_thinking, emit_remaining, emit_anthropic_text_delta,
}
use zai_proxy.Handler.AnthropicStream.Protocol.{
  read_stop, read_more, start_block, at_part, advance, is_use, add_words, add_thought, Part, idle,
  thinks, writes, uses, reading_of, message_of, Follows,
}
use zai_proxy.Handler.AnthropicStream.Protocol.{idle, thinks, writes, uses}
use zai_proxy.Handler.AnthropicTurn.Client.{waiting}
use zai_proxy.Base.{ℕ, suc, ◌≡◌, refl, Bool, true, false, some, List, [], ◌∷◌, ◌++◌, arith}

module _ (message_id request_model : Bytes) where
  abbrev pub Reads : List ContentBlock → Part → ℕ → List Event → Type 0
  Reads bs p i sent = read_all waiting sent ≡ reading_of message_id request_model bs p i

  abbrev pub Keeps : List ContentBlock × Part → Blocks → Type 0
  Keeps = Follows message_id request_model

  -- The open block is closed.
  pub stopped_block :
      (bs : List ContentBlock) (i : ℕ) (sent : List Event) (b : ContentBlock) (input : Bytes)
      → read_all waiting sent ≡ within (message_of message_id request_model bs) i b input
      → Reads (bs ++ close_block b input ∷ []) idle (suc i) (sent ++ content_block_stop i ∷ [])
  stopped_block bs i sent b input h =
      advance sent (content_block_stop i) _ _ h (read_stop message_id request_model bs i b input)

  -- A block behind those that are closed.
  pub new_block :
      (bs : List ContentBlock) (i : ℕ) (sent : List Event) (b b' : ContentBlock) (input : Bytes)
      (d : BlockDelta)
      → Reads bs idle i sent
      → add_delta b [] d ≡ some (b', input)
      → read_all waiting ((sent ++ content_block_start i b ∷ []) ++ content_block_delta i d ∷ [])
        ≡ within (message_of message_id request_model bs) i b' input
  new_block = start_block message_id request_model

  -- A delta behind others.
  next_delta :
      (bs : List ContentBlock) (i : ℕ) (sent : List Event) (b b' : ContentBlock)
      (input input' : Bytes) (d : BlockDelta)
      → read_all waiting sent ≡ within (message_of message_id request_model bs) i b input
      → add_delta b input d ≡ some (b', input')
      → read_all waiting (sent ++ content_block_delta i d ∷ [])
        ≡ within (message_of message_id request_model bs) i b' input'
  next_delta bs i sent b b' input input' d h k =
      advance sent (content_block_delta i d) _ _ h
        (read_more message_id request_model bs i b b' input input' d k)

  pub emit_thinking-Keeps :
      (s : Bytes) (bs : List ContentBlock) (p : Part) (i : ℕ) (content : Bool) (sent : List Event)
      → is_use p ≡ false
      → Reads bs p i sent
      → Keeps (add_thought s (bs, p)) (emit_thinking s (at_part p i content sent))
  unfolding emit_thinking add_thought add_delta close_block
  emit_thinking-Keeps s bs idle i content sent n h = (
    i,
    true,
    _,
    refl,
    new_block bs i sent (thinking_block []) (thinking_block s) [] (thinking_delta s) h refl,
  )
  emit_thinking-Keeps s bs (thinks t) i content sent n h = (
    i,
    true,
    _,
    refl,
    next_delta bs i sent (thinking_block t) (thinking_block (t ++ s)) [] [] (thinking_delta s) h
        refl,
  )
  emit_thinking-Keeps s bs (writes t) i content sent n h = (
    suc i,
    true,
    _,
    refl,
    new_block (bs ++ text_block t ∷ []) (suc i) (sent ++ content_block_stop i ∷ [])
        (thinking_block []) (thinking_block s) [] (thinking_delta s)
        (stopped_block bs i sent (text_block t) [] h) refl,
  )
  emit_thinking-Keeps s bs (uses id name input) i content sent n h = ground arith

  pub emit_remaining-Keeps :
      (s : Bytes) (bs : List ContentBlock) (p : Part) (i : ℕ) (content : Bool) (sent : List Event)
      → is_use p ≡ false
      → Reads bs p i sent
      → Keeps (add_thought s (bs, p)) (emit_remaining s (at_part p i content sent))
  unfolding emit_remaining emit_thinking
  emit_remaining-Keeps s bs idle i content sent n h =
      emit_thinking-Keeps s bs idle i content sent n h
  emit_remaining-Keeps s bs (thinks t) i content sent n h =
      emit_thinking-Keeps s bs (thinks t) i content sent n h
  emit_remaining-Keeps s bs (writes t) i content sent n h =
      emit_thinking-Keeps s bs (writes t) i content sent n h
  emit_remaining-Keeps s bs (uses id name input) i content sent n h = ground arith

  pub emit_text-Keeps :
      (s : Bytes) (bs : List ContentBlock) (p : Part) (i : ℕ) (content : Bool) (sent : List Event)
      → Reads bs p i sent
      → Keeps (add_words s (bs, p)) (emit_anthropic_text_delta s (at_part p i content sent))
  unfolding emit_anthropic_text_delta add_words add_delta close_block
  emit_text-Keeps [] bs p i content sent h = (i, content, sent, refl, h)
  emit_text-Keeps (c ∷ s) bs idle i content sent h = (
    i,
    true,
    _,
    refl,
    new_block bs i sent (text_block []) (text_block (c ∷ s)) [] (text_delta (c ∷ s)) h refl,
  )
  emit_text-Keeps (c ∷ s) bs (writes t) i content sent h = (
    i,
    true,
    _,
    refl,
    next_delta bs i sent (text_block t) (text_block (t ++ c ∷ s)) [] [] (text_delta (c ∷ s)) h refl,
  )
  emit_text-Keeps (c ∷ s) bs (thinks t) i content sent h = (
    suc i,
    true,
    _,
    refl,
    new_block (bs ++ thinking_block t ∷ []) (suc i) (sent ++ content_block_stop i ∷ [])
        (text_block []) (text_block (c ∷ s)) [] (text_delta (c ∷ s))
        (stopped_block bs i sent (thinking_block t) [] h) refl,
  )
  emit_text-Keeps (c ∷ s) bs (uses id name input) i content sent h = (
    suc i,
    true,
    _,
    refl,
    new_block (bs ++ tool_use_block id name (anthropic_raw_json input) ∷ []) (suc i)
        (sent ++ content_block_stop i ∷ []) (text_block []) (text_block (c ∷ s)) []
        (text_delta (c ∷ s)) (stopped_block bs i sent (tool_use_block id name (codes "{}")) input h)
        refl,
  )
