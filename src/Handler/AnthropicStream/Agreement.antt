-- ===== src/Handler/AnthropicStream/Agreement.antt =====
-- The stream of `handleAnthropicStream` against the message that its emissions spell.
use zai_proxy.Handler.Turn.{call_name}
use zai_proxy.Model.Types.{ToolCall}
use zai_proxy.Text.{is_empty, codes, Bytes}
use zai_proxy.Handler.AnthropicTurn.{
  input_json_delta, anthropic_raw_json, Event, ContentBlock, content_block_stop, text_block,
  thinking_block, tool_use_block,
}
use zai_proxy.Handler.AnthropicTurn.Client.{close_block, add_delta, waiting}
use zai_proxy.Handler.AnthropicStream.Blocks.{
  remaining, thought, close_thinking, Emission, close_text, emit_tool_uses, emit_anthropic_tool_use,
  emit, Blocks,
}
use zai_proxy.Handler.AnthropicStream.Protocol.{
  used_after, allows, is_settled, add_tool_calls, add_emission, add_call, settle, at_part, is_use,
  add_words, add_thought, Part, idle, thinks, writes, uses,
}
use mathlib.Core.Path.{subst}
use zai_proxy.Handler.AnthropicStream.Blocks.{text, thought, remaining, tool_uses}
use zai_proxy.Handler.AnthropicStream.Protocol.{idle, thinks, writes, uses}
use zai_proxy.Handler.AnthropicTurn.Client.{waiting}
use zai_proxy.Handler.AnthropicStream.Steps.{
  Reads, Keeps, stopped_block, new_block, emit_thinking-Keeps, emit_remaining-Keeps,
  emit_text-Keeps,
}
use zai_proxy.Base.{if◌then◌else◌, sym, ℕ, suc, ◌≡◌, refl, Bool, true, List, [], ◌∷◌, ◌++◌, arith}

abbrev pub reason_of : Bool → Bytes
reason_of has_tool_calls = if has_tool_calls then codes "tool_use" else codes "end_turn"

module _ (message_id request_model : Bytes) where
  emit_call-Keeps :
      (drawn : Bytes) (tc : ToolCall) (bs : List ContentBlock) (p : Part) (i : ℕ) (content : Bool)
      (sent : List Event)
      → is_settled p ≡ true
      → Reads message_id request_model bs p i sent
      → Keeps message_id request_model
          (add_call drawn tc (bs, p))
          (emit_anthropic_tool_use drawn tc (at_part p i content sent))
  unfolding emit_anthropic_tool_use add_call add_delta close_block
  emit_call-Keeps drawn tc bs idle i content sent n h =
      let id = if is_empty tc.id then codes "toolu_" ++ drawn else tc.id in
      let b = tool_use_block id (call_name tc) (codes "{}") in
      let d = input_json_delta tc.function.arguments in
      (
        i,
        content,
        _,
        refl,
        new_block message_id request_model bs i sent b b tc.function.arguments d h refl,
      )
  emit_call-Keeps drawn tc bs (uses id name input) i content sent n h =
      let id' = if is_empty tc.id then codes "toolu_" ++ drawn else tc.id in
      let b = tool_use_block id' (call_name tc) (codes "{}") in
      let d = input_json_delta tc.function.arguments in
      (
        suc i,
        content,
        _,
        refl,
        new_block message_id request_model
            (bs ++ tool_use_block id name (anthropic_raw_json input) ∷ []) (suc i)
            (sent ++ content_block_stop i ∷ []) b b tc.function.arguments d
            (stopped_block message_id request_model bs i sent (tool_use_block id name (codes "{}"))
              input h)
            refl,
      )
  emit_call-Keeps drawn tc bs (thinks t) i content sent n h = ground arith
  emit_call-Keeps drawn tc bs (writes t) i content sent n h = ground arith

  -- What was open, with no reasoning or text in it.
  settle-Keeps :
      (bs : List ContentBlock) (p : Part) (i : ℕ) (content : Bool) (sent : List Event)
      → Reads message_id request_model bs p i sent
      → Keeps message_id request_model
          (settle (bs, p))
          (close_text (close_thinking (at_part p i content sent)))
  unfolding settle close_text close_thinking close_block
  settle-Keeps bs idle i content sent h = (i, content, sent, refl, h)
  settle-Keeps bs (uses id name input) i content sent h = (i, content, sent, refl, h)
  settle-Keeps bs (thinks t) i content sent h = (
    suc i,
    content,
    _,
    refl,
    stopped_block message_id request_model bs i sent (thinking_block t) [] h,
  )
  settle-Keeps bs (writes t) i content sent h = (
    suc i,
    content,
    _,
    refl,
    stopped_block message_id request_model bs i sent (text_block t) [] h,
  )

  settle-settled : (bs : List ContentBlock) (p : Part) → is_settled (settle (bs, p)).1 ≡ true
  unfolding settle
  settle-settled bs idle = refl
  settle-settled bs (thinks t) = refl
  settle-settled bs (writes t) = refl
  settle-settled bs (uses id name input) = refl

  emit_tool_uses-Keeps :
      (j : ℕ) (draw : ℕ → Bytes) (tcs : List ToolCall) (b : List ContentBlock × Part) (w : Blocks)
      → is_settled b.1 ≡ true
      → Keeps message_id request_model b w
      → Keeps message_id request_model (add_tool_calls j draw tcs b) (emit_tool_uses j draw tcs w)
  unfolding emit_tool_uses add_tool_calls
  emit_tool_uses-Keeps j draw [] b w n k = k
  emit_tool_uses-Keeps j draw (tc ∷ tcs) (bs, p) w n (i, content, sent, e, h) =
      emit_tool_uses-Keeps (suc j) draw tcs (add_call (draw j) tc (bs, p))
        (emit_anthropic_tool_use (draw j) tc w) (unfold add_call in refl)
        (subst
          (λ v.
            Keeps message_id request_model (add_call (draw j) tc (bs, p))
              (emit_anthropic_tool_use (draw j) tc v))
          (sym e) (emit_call-Keeps (draw j) tc bs p i content sent n h))

  add_tool_calls-is_use :
      (j : ℕ) (draw : ℕ → Bytes) (tcs : List ToolCall) (b : List ContentBlock × Part)
      → is_use b.1 ≡ true
      → is_use (add_tool_calls j draw tcs b).1 ≡ true
  unfolding add_tool_calls
  add_tool_calls-is_use j draw [] b h = h
  add_tool_calls-is_use j draw (tc ∷ tcs) b h =
      add_tool_calls-is_use (suc j) draw tcs (add_call (draw j) tc b) (unfold add_call in refl)

  pub is_use-add_emission :
      (e : Emission) (bs : List ContentBlock) (p : Part)
      → is_use (add_emission e (bs, p)).1 ≡ used_after (is_use p) e
  unfolding add_emission add_thought add_words add_tool_calls settle
  is_use-add_emission (thought s) bs idle = refl
  is_use-add_emission (thought s) bs (thinks t) = refl
  is_use-add_emission (thought s) bs (writes t) = refl
  is_use-add_emission (thought s) bs (uses id name input) = refl
  is_use-add_emission (remaining s) bs idle = refl
  is_use-add_emission (remaining s) bs (thinks t) = refl
  is_use-add_emission (remaining s) bs (writes t) = refl
  is_use-add_emission (remaining s) bs (uses id name input) = refl
  is_use-add_emission (text []) bs p = refl
  is_use-add_emission (text (c ∷ s)) bs idle = refl
  is_use-add_emission (text (c ∷ s)) bs (thinks t) = refl
  is_use-add_emission (text (c ∷ s)) bs (writes t) = refl
  is_use-add_emission (text (c ∷ s)) bs (uses id name input) = refl
  is_use-add_emission (tool_uses draw []) bs idle = refl
  is_use-add_emission (tool_uses draw []) bs (thinks t) = refl
  is_use-add_emission (tool_uses draw []) bs (writes t) = refl
  is_use-add_emission (tool_uses draw []) bs (uses id name input) = refl
  is_use-add_emission (tool_uses draw (tc ∷ tcs)) bs p =
      add_tool_calls-is_use 1 draw tcs (add_call (draw 0) tc (settle (bs, p)))
        (unfold add_call in refl)

  -- One emission.
  pub emit-Keeps :
      (e : Emission) (bs : List ContentBlock) (p : Part) (i : ℕ) (content : Bool)
      (sent : List Event)
      → allows (is_use p) e ≡ true
      → Reads message_id request_model bs p i sent
      → Keeps message_id request_model (add_emission e (bs, p)) (emit e (at_part p i content sent))
  unfolding emit add_emission
  emit-Keeps (thought s) bs p i content sent o h =
      emit_thinking-Keeps message_id request_model s bs p i content sent (ground arith) h
  emit-Keeps (remaining s) bs p i content sent o h =
      emit_remaining-Keeps message_id request_model s bs p i content sent (ground arith) h
  emit-Keeps (text s) bs p i content sent o h =
      emit_text-Keeps message_id request_model s bs p i content sent h
  emit-Keeps (tool_uses draw tcs) bs p i content sent o h =
      emit_tool_uses-Keeps 0 draw tcs (settle (bs, p))
        (close_text (close_thinking (at_part p i content sent))) (settle-settled bs p)
        (settle-Keeps bs p i content sent h)
