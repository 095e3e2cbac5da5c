-- ===== src/Handler/AnthropicStream/Protocol.antt =====
-- The events of `handleAnthropicStream` as a client reads them.
use zai_proxy.Handler.Turn.{call_name}
use zai_proxy.Handler.AnthropicTurn.Agreement.{read_all-append}
use zai_proxy.Model.Types.{ToolCall}
use zai_proxy.Text.{is_empty, codes, Bytes}
use zai_proxy.Handler.AnthropicTurn.{
  anthropic_raw_json, BlockDelta, AnthropicResponse, Event, ContentBlock, content_block_start,
  content_block_delta, content_block_stop, text_block, thinking_block, tool_use_block,
}
use zai_proxy.Handler.AnthropicTurn.Client.{
  close_block, add_delta, read, Reading, between, within, waiting, read_all,
}
use zai_proxy.Handler.AnthropicStream.Blocks.{Blocks, Emission, text, thought, remaining, tool_uses}
use zai_proxy.Base.{
  ℕ, suc, ◌≡◌, ap, ◌∙◌, Bool, true, false, not, ◌&&◌, some, List, [], ◌∷◌, ◌++◌, arith,
  if◌then◌else◌,
}

-- The block that is open: none, or what was read of it; a call has its identifier, name and input.
pub data Part : Type 0 where
  idle : Part
  thinks : Bytes → Part
  writes : Bytes → Part
  uses : Bytes → Bytes → Bytes → Part

-- The blocks with the open one closed.
unfoldable pub close_part : List ContentBlock → Part → List ContentBlock
close_part bs idle = bs
close_part bs (thinks t) = bs ++ thinking_block t ∷ []
close_part bs (writes t) = bs ++ text_block t ∷ []
close_part bs (uses id name input) = bs ++ tool_use_block id name (anthropic_raw_json input) ∷ []

-- A message as it grows: reasoning and text are joined to an open block of their kind.
unfoldable pub add_thought : Bytes → List ContentBlock × Part → List ContentBlock × Part
unfolding close_part
add_thought s (bs, thinks t) = (bs, thinks (t ++ s))
add_thought s (bs, p) = (close_part bs p, thinks s)

unfoldable pub add_words : Bytes → List ContentBlock × Part → List ContentBlock × Part
unfolding close_part
add_words [] b = b
add_words (c ∷ s) (bs, writes t) = (bs, writes (t ++ c ∷ s))
add_words (c ∷ s) (bs, p) = (close_part bs p, writes (c ∷ s))

unfoldable pub add_call : Bytes → ToolCall → List ContentBlock × Part → List ContentBlock × Part
unfolding close_part
add_call drawn tc (bs, p) = (
  close_part bs p,
  uses (if is_empty tc.id then codes "toolu_" ++ drawn else tc.id) (call_name tc)
      tc.function.arguments,
)

unfoldable pub add_tool_calls :
    ℕ → (ℕ → Bytes) → List ToolCall → List ContentBlock × Part → List ContentBlock × Part
unfolding add_call
add_tool_calls i draw [] b = b
add_tool_calls i draw (tc ∷ tcs) b = add_tool_calls (suc i) draw tcs (add_call (draw i) tc b)

-- Before calls, reasoning and text are closed.
unfoldable pub settle : List ContentBlock × Part → List ContentBlock × Part
unfolding close_part
settle (bs, uses id name input) = (bs, uses id name input)
settle (bs, p) = (close_part bs p, idle)

unfoldable pub add_emission : Emission → List ContentBlock × Part → List ContentBlock × Part
unfolding add_thought add_words add_tool_calls settle
add_emission (thought s) b = add_thought s b
add_emission (remaining s) b = add_thought s b
add_emission (text s) b = add_words s b
add_emission (tool_uses draw tcs) b = add_tool_calls 0 draw tcs (settle b)

unfoldable pub assemble : List Emission → List ContentBlock × Part → List ContentBlock
unfolding add_emission close_part
assemble [] (bs, p) = close_part bs p
assemble (e ∷ es) b = assemble es (add_emission e b)

-- Whether the block of a call is open behind an emission, if `used` says so before it.
abbrev pub used_after : Bool → Emission → Bool
used_after used (thought s) = false
used_after used (remaining s) = false
used_after used (text []) = used
used_after used (text (c ∷ s)) = false
used_after used (tool_uses draw []) = used
used_after used (tool_uses draw (tc ∷ tcs)) = true

abbrev pub allows : Bool → Emission → Bool
allows used (thought s) = not used
allows used (remaining s) = not used
allows used (text s) = true
allows used (tool_uses draw tcs) = true

-- No reasoning comes behind a call before a text does.
abbrev pub is_ordered : Bool → List Emission → Bool
is_ordered used [] = true
is_ordered used (e ∷ es) = allows used e && is_ordered (used_after used e) es

abbrev pub is_use : Part → Bool
is_use (uses id name input) = true
is_use _ = false

abbrev pub is_settled : Part → Bool
is_settled idle = true
is_settled (thinks t) = false
is_settled (writes t) = false
is_settled (uses id name input) = true

-- The variables with a block open, or none.
abbrev pub at_part : Part → ℕ → Bool → List Event → Blocks
at_part p i content sent = record {
  content_block_index = i;
  in_thinking_block = elim p [ thinks t ↦ true | _ ↦ false ];
  in_text_block = elim p [ writes t ↦ true | _ ↦ false ];
  in_tool_use_block = is_use p;
  has_content = content;
  sent = sent;
}

-- One more event.
pub advance :
    (sent : List Event) (e : Event) (r r' : Reading)
    → read_all waiting sent ≡ r
    → read r e ≡ r'
    → read_all waiting (sent ++ e ∷ []) ≡ r'
unfolding read_all
advance sent e r r' h k = read_all-append waiting sent (e ∷ []) ∙ ap (λ q. read q e) h ∙ k

module _ (message_id request_model : Bytes) where
  abbrev pub message_of : List ContentBlock → AnthropicResponse
  message_of bs = record { id = message_id; content = bs; model = request_model; stop_reason = [] }

  -- What a client has read.
  abbrev pub reading_of : List ContentBlock → Part → ℕ → Reading
  reading_of bs idle i = between (message_of bs) i
  reading_of bs (thinks t) i = within (message_of bs) i (thinking_block t) []
  reading_of bs (writes t) i = within (message_of bs) i (text_block t) []
  reading_of bs (uses id name input) i =
      within (message_of bs) i (tool_use_block id name (codes "{}")) input

  abbrev pub Follows : List ContentBlock × Part → Blocks → Type 0
  Follows (bs, p) w =
      (i : ℕ) × (content : Bool) × (sent : List Event) × (w ≡ at_part p i content sent)
      × (read_all waiting sent ≡ reading_of bs p i)

  read_start :
      (bs : List ContentBlock) (i : ℕ) (b : ContentBlock)
      → read (between (message_of bs) i) (content_block_start i b) ≡ within (message_of bs) i b []
  unfolding read
  read_start bs i b = ground arith

  -- A delta that continues the block.
  pub read_more :
      (bs : List ContentBlock) (i : ℕ) (b b' : ContentBlock) (input input' : Bytes) (d : BlockDelta)
      → add_delta b input d ≡ some (b', input')
      → read (within (message_of bs) i b input) (content_block_delta i d)
        ≡ within (message_of bs) i b' input'
  unfolding read
  read_more bs i b b' input input' d h = ground arith

  pub read_stop :
      (bs : List ContentBlock) (i : ℕ) (b : ContentBlock) (input : Bytes)
      → read (within (message_of bs) i b input) (content_block_stop i)
        ≡ between (message_of (bs ++ close_block b input ∷ [])) (suc i)
  unfolding read
  read_stop bs i b input = ground arith

  -- A block that starts and gets its first delta.
  pub start_block :
      (bs : List ContentBlock) (i : ℕ) (sent : List Event) (b b' : ContentBlock) (input : Bytes)
      (d : BlockDelta)
      → read_all waiting sent ≡ between (message_of bs) i
      → add_delta b [] d ≡ some (b', input)
      → read_all waiting ((sent ++ content_block_start i b ∷ []) ++ content_block_delta i d ∷ [])
        ≡ within (message_of bs) i b' input
  start_block bs i sent b b' input d h k =
      advance (sent ++ content_block_start i b ∷ []) (content_block_delta i d) _ _
        (advance sent (content_block_start i b) _ _ h (read_start bs i b))
        (read_more bs i b b' [] input d k)
