-- ===== src/Handler/ChatStream/Received.antt =====
-- A client of the stream of `handleStreamResponse` gets the response that is written for the turn
-- which the emissions spell.
use zai_proxy.Handler.Events.{Reader}
use zai_proxy.Handler.ChatStream.Reason.{chat_emissions-Reasoned, Reasoned}
use zai_proxy.Handler.Turn.{is_nil, AssistantTurn}
use zai_proxy.Handler.OpenaiTurn.Agreement.{new_message, receive}
use zai_proxy.Handler.ChatStream.Flags.{any_calls}
use zai_proxy.Text.{codes, Bytes}
use zai_proxy.Model.Types.{ToolCall}
use zai_proxy.Handler.OpenaiTurn.{
  write_openai_non_stream_turn, stop_reason, StreamLine, no_delta, MessageResp, Delta,
}
use zai_proxy.Handler.ChatStream.Chunks.{
  end_chunks, chat_emissions, handle_stream_response, chunks_of, all_deltas,
}
use zai_proxy.Handler.AnthropicStream.Blocks.{Emission, text, thought, remaining, tool_uses}
use zai_proxy.Base.{
  ℕ, ◌≡◌, refl, ap, ◌∙◌, Bool, true, not, Option, none, some, List, [], ◌∷◌, ◌++◌, map, append-nil,
  append_assoc, if◌then◌else◌,
}

-- The turn that emissions spell.
unfoldable pub joined_content : List Emission → Bytes
joined_content [] = []
joined_content (text s ∷ es) = s ++ joined_content es
joined_content (_ ∷ es) = joined_content es

unfoldable pub joined_reasoning : List Emission → Bytes
joined_reasoning [] = []
joined_reasoning (thought s ∷ es) = s ++ joined_reasoning es
joined_reasoning (remaining s ∷ es) = s ++ joined_reasoning es
joined_reasoning (_ ∷ es) = joined_reasoning es

unfoldable pub joined_calls : List Emission → List ToolCall
joined_calls [] = []
joined_calls (tool_uses draw tcs ∷ es) = tcs ++ joined_calls es
joined_calls (_ ∷ es) = joined_calls es

unfoldable pub joined_turn : List Emission → AssistantTurn
unfolding joined_content joined_reasoning joined_calls
joined_turn es = record {
  content = joined_content es;
  reasoning_content = joined_reasoning es;
  tool_calls = joined_calls es;
}

any_calls-joined_calls : (es : List Emission) → any_calls es ≡ not (is_nil (joined_calls es))
unfolding joined_calls
any_calls-joined_calls [] = refl
any_calls-joined_calls (thought s ∷ es) = any_calls-joined_calls es
any_calls-joined_calls (remaining s ∷ es) = any_calls-joined_calls es
any_calls-joined_calls (text s ∷ es) = any_calls-joined_calls es
any_calls-joined_calls (tool_uses draw [] ∷ es) = any_calls-joined_calls es
any_calls-joined_calls (tool_uses draw (tc ∷ tcs) ∷ es) = refl

-- A message with more of each part.
abbrev more : MessageResp → Bytes → Bytes → List ToolCall → MessageResp
more m c r tcs = record m {
  content = m.content ++ c;
  reasoning_content = m.reasoning_content ++ r;
  tool_calls = m.tool_calls ++ tcs;
}

abbrev total : MessageResp → List Delta → MessageResp
total m [] = m
total m (d ∷ ds) = total (more m d.content d.reasoning_content d.tool_calls) ds

total-append : (ds es : List Delta) (m : MessageResp) → total m (ds ++ es) ≡ total (total m ds) es
total-append [] es m = refl
total-append (d ∷ ds) es m = total-append ds es (more m d.content d.reasoning_content d.tool_calls)

total-calls :
    (tcs : List ToolCall) (m : MessageResp)
    → total m (map (λ tc. record no_delta { tool_calls = tc ∷ [] }) tcs) ≡ more m [] [] tcs
total-calls [] m = simp append-nil
total-calls (tc ∷ tcs) m =
    total-calls tcs (more m [] [] (tc ∷ [])) ∙ simp (append-nil, append_assoc)

total-all_deltas :
    (es : List Emission) (m : MessageResp)
    → total m (all_deltas es) ≡ more m (joined_content es) (joined_reasoning es) (joined_calls es)
unfolding all_deltas joined_content joined_reasoning joined_calls
total-all_deltas [] m = simp append-nil
total-all_deltas (thought s ∷ es) m =
    total-all_deltas es (more m [] s []) ∙ simp (append-nil, append_assoc)
total-all_deltas (remaining s ∷ es) m =
    total-all_deltas es (more m [] s []) ∙ simp (append-nil, append_assoc)
total-all_deltas (text [] ∷ es) m = total-all_deltas es m
total-all_deltas (text (c ∷ s) ∷ es) m =
    total-all_deltas es (more m (c ∷ s) [] []) ∙ simp (append-nil, append_assoc)
total-all_deltas (tool_uses draw tcs ∷ es) m =
    total-append (map (λ tc. record no_delta { tool_calls = tc ∷ [] }) tcs) (all_deltas es) m
    ∙ ap (λ n. total n (all_deltas es)) (total-calls tcs m)
    ∙ total-all_deltas es (more m [] [] tcs)
    ∙ simp (append-nil, append_assoc)

module _ (completion_id : Bytes) (created : ℕ) (model_name : Bytes) where
  receive-chunks_of :
      (ds : List Delta) (ls : List StreamLine) (m : MessageResp)
      → receive m (chunks_of completion_id created model_name ds ++ ls) ≡ receive (total m ds) ls
  unfolding receive
  receive-chunks_of [] ls m = refl
  receive-chunks_of (d ∷ ds) ls m =
      receive-chunks_of ds ls (more m d.content d.reasoning_content d.tool_calls)

  -- What a client makes of the lines, for the emissions and the reason.
  abbrev pub Delivered : List Emission × Option Bytes → List StreamLine → Type 0
  Delivered (es, none) ls = receive new_message ls ≡ none
  Delivered (es, some reason) ls =
      receive new_message ls
      ≡ some (write_openai_non_stream_turn completion_id created model_name (joined_turn es))

  reason_lem :
      (es : List Emission)
      → (if any_calls es then codes "tool_calls" else codes "stop") ≡ stop_reason (joined_turn es)
  unfolding stop_reason joined_turn
  reason_lem es = rw (any_calls-joined_calls es) (from (joined_calls es))
    where
      from :
          (tcs : List ToolCall)
          → (if not (is_nil tcs) then codes "tool_calls" else codes "stop")
            ≡ (if is_nil tcs then codes "stop" else codes "tool_calls")
      from [] = refl
      from (tc ∷ tcs) = refl

  receive_end :
      (p : List Emission × Option Bytes)
      → Reasoned p
      → Delivered p (
          chunks_of completion_id created model_name (all_deltas p.0)
          ++ end_chunks completion_id created model_name p.1)
  unfolding receive write_openai_non_stream_turn joined_turn
  receive_end (es, none) h = receive-chunks_of (all_deltas es) [] new_message
  receive_end (es, some reason) h =
      receive-chunks_of (all_deltas es) (end_chunks completion_id created model_name (some reason))
        new_message
      ∙ ap (λ m. receive m (end_chunks completion_id created model_name (some reason)))
          (total-all_deltas es new_message)
      ∙ simp (append-nil, h ∙ reason_lem es)

  -- To a writer that can flush, for every stream: the client gets from the chunks the response that
  -- is written without streaming for the turn that the emissions spell, with the reason
  -- `tool_calls` exactly if a call was sent, unless the handler panics; then it gets no response.
  pub handle_stream_response-joined_turn :
      (reader : Reader) (draw : ℕ → ℕ → ℕ → Bytes) (has_tools : Bool) (lines : List Bytes)
      → (ls : List StreamLine) × (handle_stream_response reader draw completion_id created
            model_name true has_tools lines
          ≡ some ls)
        × Delivered (chat_emissions reader draw has_tools lines) ls
  unfolding handle_stream_response
  handle_stream_response-joined_turn reader draw has_tools lines = (
    _,
    refl,
    receive_end (chat_emissions reader draw has_tools lines)
        (chat_emissions-Reasoned reader draw has_tools lines),
  )
