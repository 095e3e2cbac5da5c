-- ===== src/Handler/ChatStream/Chunks.antt =====
-- The chunks of `handleStreamResponse` of internal/handler/chat.go, and what stands behind its loop.
-- `created` is the time of the chunks, taken once.
use zai_proxy.Filter.Search.Reference.{flush_references}
use zai_proxy.Handler.ChatStream.{Chatting, new_chatting, chat_lines}
use zai_proxy.Handler.Turn.{is_nil}
use zai_proxy.Handler.Events.{Reader}
use zai_proxy.Handler.AnthropicStream.Shared.{if_any, flush_buffer, Streaming}
use zai_proxy.Handler.AnthropicStream.Blocks.{Emission, text, thought, remaining, tool_uses}
use zai_proxy.Text.{codes, Outcome, Bytes, panics, value}
use zai_proxy.Handler.OpenaiTurn.{send, no_delta, Delta, StreamLine, done}
use zai_proxy.Base.{
  ℕ, Bool, true, false, not, ◌&&◌, Option, none, some, List, [], ◌∷◌, ◌++◌, map, if◌then◌else◌,
  length,
}

-- The deltas of an emission: one for each call, and none for an empty text.
unfoldable pub deltas_of : Emission → List Delta
deltas_of (thought s) = record no_delta { reasoning_content = s } ∷ []
deltas_of (remaining s) = record no_delta { reasoning_content = s } ∷ []
deltas_of (text []) = []
deltas_of (text (c ∷ s)) = record no_delta { content = c ∷ s } ∷ []
deltas_of (tool_uses draw tcs) = map (λ tc. record no_delta { tool_calls = tc ∷ [] }) tcs

unfoldable pub all_deltas : List Emission → List Delta
unfolding deltas_of
all_deltas [] = []
all_deltas (e ∷ es) = deltas_of e ++ all_deltas es

-- Whether the reason is `tool_calls`.
abbrev pub calls_found : Streaming → Bool
calls_found s = s.has_tool_calls && not (is_nil s.collected_tool_calls)

module _ (completion_id : Bytes) (created : ℕ) (model_name : Bytes) where
  abbrev pub chunks_of : List Delta → List StreamLine
  chunks_of ds = map (λ d. send completion_id created model_name d none) ds

  abbrev pub end_chunks : Option Bytes → List StreamLine
  end_chunks none = []
  end_chunks (some reason) =
      send completion_id created model_name no_delta (some reason) ∷ done ∷ []

module _ (reader : Reader) (draw : ℕ → ℕ → ℕ → Bytes) where
  -- What stands behind the loop, with the reason; a panic leaves none.
  unfoldable pub end_chat : ℕ → List Emission → Outcome Chatting → List Emission × Option Bytes
  unfolding flush_buffer flush_references
  end_chat n es panics = (es, none)
  end_chat n es (value s) =
      let (fs, s') = flush_buffer (λ draw tcs. tcs) reader draw n s.streaming in
      (
        es ++ (fs ++ if_any text (flush_references s'.search_ref_filter).0),
        some (if calls_found s' then codes "tool_calls" else codes "stop"),
      )

  -- All that is sent, and the reason.
  unfoldable pub chat_emissions : Bool → List Bytes → List Emission × Option Bytes
  unfolding chat_lines end_chat
  chat_emissions has_tools lines =
      let r = chat_lines reader draw has_tools 0 lines new_chatting in
      end_chat (length lines) r.sends r.state

  -- The lines sent, or `none` for the error response, when the writer cannot flush.
  unfoldable pub handle_stream_response :
      Bytes → ℕ → Bytes → Bool → Bool → List Bytes → Option (List StreamLine)
  unfolding chat_emissions all_deltas
  handle_stream_response completion_id created model_name false has_tools lines = none
  handle_stream_response completion_id created model_name true has_tools lines =
      let (es, reason) = chat_emissions has_tools lines in
      some (
        chunks_of completion_id created model_name (all_deltas es)
        ++ end_chunks completion_id created model_name reason)
