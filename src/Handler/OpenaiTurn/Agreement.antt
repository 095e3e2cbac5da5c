-- ===== src/Handler/OpenaiTurn/Agreement.antt =====
-- A client that joins the chunks of a stream gets the response that is sent without streaming.
use zai_proxy.Base.{
  ℕ, ◌≡◌, refl, ◌∙◌, true, Option, none, some, List, [], ◌∷◌, ◌++◌, append-nil, append_assoc,
  if◌then◌else◌,
}
use zai_proxy.Text.{Bytes, codes, is_empty}
use zai_proxy.Model.Types.{ToolCall}
use zai_proxy.Handler.Turn.{AssistantTurn}
use zai_proxy.Handler.OpenaiTurn.{
  StreamLine, chunk, done, MessageResp, ChatCompletionResponse, no_delta, send, send_tool_calls,
  write_openai_non_stream_turn, write_openai_stream_turn,
}

-- The client: it appends the deltas up to the chunk with a finish reason, which the closing mark
-- must follow. Anything else is an error.
unfoldable pub receive : MessageResp → List StreamLine → Option ChatCompletionResponse
receive m [] = none
receive m (done ∷ ls) = none
receive m (chunk c ∷ ls) =
    let m' = record m {
      content = m.content ++ c.delta.content;
      reasoning_content = m.reasoning_content ++ c.delta.reasoning_content;
      tool_calls = m.tool_calls ++ c.delta.tool_calls;
    } in
    let rest = receive m' ls in
    elim c.finish_reason [
      | none ↦ rest
      | some reason ↦ elim ls [
        | done ∷ more ↦ elim more [
          | [] ↦ some (record {
            id = c.id;
            created = c.created;
            model = c.model;
            message = m';
            finish_reason = reason;
          })
          | _ ∷ _ ↦ none
        ]
        | _ ↦ none
      ]
    ]

abbrev pub new_message : MessageResp
new_message = record {
  role = codes "assistant";
  content = [];
  reasoning_content = [];
  tool_calls = [];
}

module _ (completion_id : Bytes) (created : ℕ) (model_name : Bytes) where
  receive-send_tool_calls :
      (tcs : List ToolCall) (m : MessageResp) (ls : List StreamLine)
      → receive m (send_tool_calls completion_id created model_name tcs ++ ls)
        ≡ receive (record m { tool_calls = m.tool_calls ++ tcs }) ls
  unfolding receive send_tool_calls
  receive-send_tool_calls [] m ls = rw append-nil refl
  receive-send_tool_calls (tc ∷ tcs) m ls =
      simp (append-nil, append_assoc, receive-send_tool_calls tcs)

  receive_reasoning :
      (r : Bytes) (m : MessageResp) (ls : List StreamLine)
      → receive m (
          (if is_empty r
            then []
            else send completion_id created model_name
                (record no_delta { reasoning_content = r })
                none
              ∷ [])
          ++ ls)
        ≡ receive (record m { reasoning_content = m.reasoning_content ++ r }) ls
  unfolding receive
  receive_reasoning [] m ls = rw append-nil refl
  receive_reasoning (c ∷ s) m ls = simp append-nil

  receive_content :
      (t : Bytes) (m : MessageResp) (ls : List StreamLine)
      → receive m (
          (if is_empty t
            then []
            else send completion_id created model_name (record no_delta { content = t }) none ∷ [])
          ++ ls)
        ≡ receive (record m { content = m.content ++ t }) ls
  unfolding receive
  receive_content [] m ls = rw append-nil refl
  receive_content (c ∷ s) m ls = simp append-nil

  receive_end :
      (m : MessageResp) (reason : Bytes)
      → receive m (send completion_id created model_name no_delta (some reason) ∷ done ∷ [])
        ≡ some (record {
          id = completion_id;
          created = created;
          model = model_name;
          message = m;
          finish_reason = reason;
        })
  unfolding receive
  receive_end m reason = simp append-nil

  -- Streamed or not, the client gets the same response: to a writer that can flush the chunks of a
  -- turn, joined, are the response that is sent without streaming.
  pub receive-write_openai_stream_turn :
      (turn : AssistantTurn)
      → (lines : List StreamLine) × (write_openai_stream_turn completion_id created model_name true
            turn
          ≡ some lines)
        × (receive new_message lines
            ≡ some (write_openai_non_stream_turn completion_id created model_name turn))
  unfolding write_openai_stream_turn write_openai_non_stream_turn
  receive-write_openai_stream_turn turn = (
    _,
    refl,
    receive_reasoning turn.reasoning_content new_message _
        ∙ receive_content turn.content _ _
        ∙ receive-send_tool_calls turn.tool_calls _ _
        ∙ receive_end _ _,
  )
