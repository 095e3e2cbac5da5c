-- ===== src/Handler/AnthropicStream/Refusal.antt =====
-- A client refuses the stream of `handleAnthropicStream` once reasoning is sent behind a call.
use zai_proxy.Handler.AnthropicStream.Steps.{Reads}
use zai_proxy.Handler.AnthropicStream.Agreement.{emit-Keeps, is_use-add_emission}
use zai_proxy.Handler.Events.{Reader}
use zai_proxy.Model.Types.{ToolCall}
use zai_proxy.Handler.AnthropicStream.Events.{emissions_of, handle_anthropic_stream}
use zai_proxy.Text.{codes, Bytes}
use zai_proxy.Handler.AnthropicTurn.{
  ContentBlock, Event, content_block_start, message_delta, message_stop, thinking_block,
}
use zai_proxy.Handler.AnthropicTurn.Client.{waiting, refused, read, read_all}
use zai_proxy.Handler.AnthropicStream.Blocks.{
  opened, stop_block, Emission, start_thinking, start_text, end_message, emit_tool_uses,
  emit_thinking, emit_remaining, emit_anthropic_tool_use, emit_anthropic_text_delta, emit_all, emit,
  close_tool_use, close_thinking, close_text, Blocks, text, thought, remaining, tool_uses,
}
use zai_proxy.Handler.AnthropicStream.Protocol.{
  used_after, add_emission, is_use, allows, is_ordered, Part, advance, idle, thinks, writes, uses,
  at_part, Follows,
}
use zai_proxy.Handler.AnthropicTurn.Agreement.{read_all-append}
use mathlib.Core.Path.{subst}
use zai_proxy.Base.{
  ℕ, suc, ◌≡◌, refl, sym, ap, ◌∙◌, inl, inr, Bool, true, false, not, some, List, [], ◌∷◌, ◌++◌,
  arith, if◌then◌else◌, Bool-cases,
}

abbrev Stuck : Blocks → Type 0
Stuck w = read_all waiting w.sent ≡ refused

either : (b : Bool) (v w : Blocks) → Stuck v → Stuck w → Stuck (if b then v else w)
either true v w h k = h
either false v w h k = k

refuse_more :
    (sent : List Event) (e : Event)
    → read_all waiting sent ≡ refused
    → read_all waiting (sent ++ e ∷ []) ≡ refused
refuse_more sent e h = advance sent e refused refused h (unfold read in refl)

close_thinking-Stuck : (w : Blocks) → Stuck w → Stuck (close_thinking w)
unfolding close_thinking
close_thinking-Stuck w h = either w.in_thinking_block _ w (refuse_more w.sent _ h) h

close_text-Stuck : (w : Blocks) → Stuck w → Stuck (close_text w)
unfolding close_text
close_text-Stuck w h = either w.in_text_block _ w (refuse_more w.sent _ h) h

close_tool_use-Stuck : (w : Blocks) → Stuck w → Stuck (close_tool_use w)
unfolding close_tool_use
close_tool_use-Stuck w h = either w.in_tool_use_block _ w (refuse_more w.sent _ h) h

start_text-Stuck : (w : Blocks) → Stuck w → Stuck (start_text w)
unfolding start_text
start_text-Stuck w h = either (not w.in_text_block) _ w (refuse_more w.sent _ h) h

start_thinking-Stuck : (w : Blocks) → Stuck w → Stuck (start_thinking w)
unfolding start_thinking
start_thinking-Stuck w h = either (not w.in_thinking_block) _ w (refuse_more w.sent _ h) h

emit_thinking-Stuck : (s : Bytes) (w : Blocks) → Stuck w → Stuck (emit_thinking s w)
unfolding emit_thinking
emit_thinking-Stuck s w h =
    refuse_more (start_thinking (close_text w)).sent _
      (start_thinking-Stuck (close_text w) (close_text-Stuck w h))

emit_remaining-Stuck : (s : Bytes) (w : Blocks) → Stuck w → Stuck (emit_remaining s w)
unfolding emit_remaining
emit_remaining-Stuck s w h =
    refuse_more (if not w.in_thinking_block then start_thinking (close_text w) else w).sent _ (
      either (not w.in_thinking_block) (start_thinking (close_text w)) w
        (start_thinking-Stuck (close_text w) (close_text-Stuck w h)) h)

emit_text-Stuck : (s : Bytes) (w : Blocks) → Stuck w → Stuck (emit_anthropic_text_delta s w)
unfolding emit_anthropic_text_delta
emit_text-Stuck [] w h = h
emit_text-Stuck (c ∷ s) w h = refuse_more (start_text (close_tool_use (close_thinking w))).sent _ (
    start_text-Stuck (close_tool_use (close_thinking w))
      (close_tool_use-Stuck (close_thinking w) (close_thinking-Stuck w h)))

emit_call-Stuck :
    (drawn : Bytes) (tc : ToolCall) (w : Blocks)
    → Stuck w
    → Stuck (emit_anthropic_tool_use drawn tc w)
unfolding emit_anthropic_tool_use
emit_call-Stuck drawn tc w h =
    let closed : Blocks = if w.in_tool_use_block then stop_block w else w in
    refuse_more _ _ (
      refuse_more closed.sent _
        (either w.in_tool_use_block (stop_block w) w (refuse_more w.sent _ h) h))

emit_tool_uses-Stuck :
    (j : ℕ) (draw : ℕ → Bytes) (tcs : List ToolCall) (w : Blocks)
    → Stuck w
    → Stuck (emit_tool_uses j draw tcs w)
unfolding emit_tool_uses
emit_tool_uses-Stuck j draw [] w h = h
emit_tool_uses-Stuck j draw (tc ∷ tcs) w h =
    emit_tool_uses-Stuck (suc j) draw tcs (emit_anthropic_tool_use (draw j) tc w)
      (emit_call-Stuck (draw j) tc w h)

emit-Stuck : (e : Emission) (w : Blocks) → Stuck w → Stuck (emit e w)
unfolding emit
emit-Stuck (thought s) w h = emit_thinking-Stuck s w h
emit-Stuck (remaining s) w h = emit_remaining-Stuck s w h
emit-Stuck (text s) w h = emit_text-Stuck s w h
emit-Stuck (tool_uses draw tcs) w h =
    emit_tool_uses-Stuck 0 draw tcs (close_text (close_thinking w))
      (close_text-Stuck (close_thinking w) (close_thinking-Stuck w h))

emit_all-Stuck : (es : List Emission) (w : Blocks) → Stuck w → Stuck (emit_all es w)
unfolding emit_all
emit_all-Stuck [] w h = h
emit_all-Stuck (e ∷ es) w h = emit_all-Stuck es (emit e w) (emit-Stuck e w h)

end_message-Stuck : (b : Bool) (w : Blocks) → Stuck w → read_all waiting (end_message b w) ≡ refused
unfolding end_message
end_message-Stuck b w h =
    let closed = close_tool_use (close_text (close_thinking w)) in
    read_all-append waiting closed.sent
      (message_delta (if b then codes "tool_use" else codes "end_turn") ∷ message_stop ∷ [])
    ∙ ap
        (λ r.
          read_all r
            (message_delta (if b then codes "tool_use" else codes "end_turn") ∷ message_stop ∷ []))
        (close_tool_use-Stuck (close_text (close_thinking w))
          (close_text-Stuck (close_thinking w) (close_thinking-Stuck w h)))
    ∙ unfold read_all read in refl

module _ (message_id request_model : Bytes) where
  -- Reasoning within a call.
  emit-refused :
      (e : Emission) (bs : List ContentBlock) (p : Part) (i : ℕ) (content : Bool)
      (sent : List Event)
      → allows (is_use p) e ≡ false
      → Reads message_id request_model bs p i sent
      → Stuck (emit e (at_part p i content sent))
  unfolding emit emit_thinking emit_remaining close_text start_thinking
  emit-refused (thought s) bs (uses id name input) i content sent o h =
      refuse_more (sent ++ content_block_start i (thinking_block []) ∷ []) _
        (advance sent _ _ refused h (unfold read in refl))
  emit-refused (remaining s) bs (uses id name input) i content sent o h =
      refuse_more (sent ++ content_block_start i (thinking_block []) ∷ []) _
        (advance sent _ _ refused h (unfold read in refl))
  emit-refused (thought s) bs idle i content sent o h = ground arith
  emit-refused (thought s) bs (thinks t) i content sent o h = ground arith
  emit-refused (thought s) bs (writes t) i content sent o h = ground arith
  emit-refused (remaining s) bs idle i content sent o h = ground arith
  emit-refused (remaining s) bs (thinks t) i content sent o h = ground arith
  emit-refused (remaining s) bs (writes t) i content sent o h = ground arith
  emit-refused (text s) bs p i content sent o h = ground arith
  emit-refused (tool_uses draw tcs) bs p i content sent o h = ground arith

  emit_all-refused :
      (b : Bool) (es : List Emission) (bs : List ContentBlock) (p : Part) (w : Blocks)
      → is_ordered (is_use p) es ≡ false
      → Follows message_id request_model (bs, p) w
      → read_all waiting (end_message b (emit_all es w)) ≡ refused
  unfolding emit_all
  emit_all-refused b [] bs p w o k = ground arith
  emit_all-refused b (x ∷ es) bs p w o (i, content, sent, e, h) =
      let next = add_emission x (bs, p) in
      elim (Bool-cases (allows (is_use p) x)) [
        | inl a ↦
            let later : is_ordered (used_after (is_use p) x) es ≡ false = ground arith in
            emit_all-refused b es next.0 next.1 (emit x w)
              (subst (λ u. is_ordered u es ≡ false)
                (sym (is_use-add_emission message_id request_model x bs p)) later)
              (subst (λ v. Follows message_id request_model next (emit x v)) (sym e)
                (emit-Keeps message_id request_model x bs p i content sent a h))
        | inr n ↦ end_message-Stuck b (emit_all es (emit x w)) (
            emit_all-Stuck es (emit x w)
              (subst (λ v. Stuck (emit x v)) (sym e) (emit-refused x bs p i content sent n h)))
      ]

  -- If reasoning is sent behind a call before any text is, a client that checks the protocol
  -- refuses the stream, whatever comes then: the block of the call is still open where the block
  -- of the reasoning starts.
  pub handle_anthropic_stream-refused :
      (reader : Reader) (draw : ℕ → ℕ → ℕ → Bytes) (has_tools : Bool) (lines : List Bytes)
      → is_ordered false (emissions_of reader draw has_tools lines).0 ≡ false
      → (events : List Event) × (handle_anthropic_stream reader draw message_id request_model true
            has_tools lines
          ≡ some events)
        × (read_all waiting events ≡ refused)
  unfolding handle_anthropic_stream
  handle_anthropic_stream-refused reader draw has_tools lines o =
      let (es, b) = emissions_of reader draw has_tools lines in
      (
        _,
        refl,
        emit_all-refused b es [] idle (opened message_id request_model) o
            (0, false, _, refl, unfold read_all read in refl),
      )
