-- ===== src/Handler/OpenaiTurn.antt =====
-- `writeOpenAINonStreamTurn` and `writeOpenAIStreamTurn` of internal/handler/assistant_turn.go:
-- the same turn as one response, and as a stream of chunks. `created` is the time of the answer,
-- taken once; zero usage counts are left out.
pub mod Agreement
use zai_proxy.Base.{
  ℕ, ◌+◌, Bool, true, false, Option, none, some, List, [], ◌∷◌, ◌++◌, if◌then◌else◌,
}
use zai_proxy.Text.{Bytes, codes, is_empty}
use zai_proxy.Model.Types.{ToolCall}
use zai_proxy.Handler.Turn.{AssistantTurn, is_nil}

pub record Delta : Type 0 where
  pub content : Bytes
  pub reasoning_content : Bytes
  pub tool_calls : List ToolCall

-- A chunk with its one choice, whose index is 0.
pub record ChatCompletionChunk : Type 0 where
  pub id : Bytes
  pub created : ℕ
  pub model : Bytes
  pub delta : Delta
  pub finish_reason : Option Bytes

-- A `data:` line of the stream: a chunk, or the closing mark.
pub data StreamLine : Type 0 where
  chunk : ChatCompletionChunk → StreamLine
  done : StreamLine

pub record MessageResp : Type 0 where
  pub role : Bytes
  pub content : Bytes
  pub reasoning_content : Bytes
  pub tool_calls : List ToolCall

-- A response with its one choice.
pub record ChatCompletionResponse : Type 0 where
  pub id : Bytes
  pub created : ℕ
  pub model : Bytes
  pub message : MessageResp
  pub finish_reason : Bytes

unfoldable pub stop_reason : AssistantTurn → Bytes
stop_reason turn = if is_nil turn.tool_calls then codes "stop" else codes "tool_calls"

unfoldable pub write_openai_non_stream_turn :
    Bytes → ℕ → Bytes → AssistantTurn → ChatCompletionResponse
unfolding stop_reason
write_openai_non_stream_turn completion_id created model_name turn = record {
  id = completion_id;
  created = created;
  model = model_name;
  message = record {
    role = codes "assistant";
    content = turn.content;
    reasoning_content = turn.reasoning_content;
    tool_calls = turn.tool_calls;
  };
  finish_reason = stop_reason turn;
}

abbrev pub no_delta : Delta
no_delta = record { content = []; reasoning_content = []; tool_calls = [] }

module _ (completion_id : Bytes) (created : ℕ) (model_name : Bytes) where
  abbrev pub send : Delta → Option Bytes → StreamLine
  send delta finish_reason = chunk (record {
    id = completion_id;
    created = created;
    model = model_name;
    delta = delta;
    finish_reason = finish_reason;
  })

  -- The loop over the calls.
  unfoldable pub send_tool_calls : List ToolCall → List StreamLine
  send_tool_calls [] = []
  send_tool_calls (tc ∷ tcs) =
      send (record no_delta { tool_calls = tc ∷ [] }) none ∷ send_tool_calls tcs

  -- What is sent, or `none` for the error response, when the writer cannot flush.
  unfoldable pub write_openai_stream_turn : Bool → AssistantTurn → Option (List StreamLine)
  unfolding send_tool_calls stop_reason
  write_openai_stream_turn false turn = none
  write_openai_stream_turn true turn = some (
      (if is_empty turn.reasoning_content
        then []
        else send (record no_delta { reasoning_content = turn.reasoning_content }) none ∷ [])
      ++ ((if is_empty turn.content
            then []
            else send (record no_delta { content = turn.content }) none ∷ [])
          ++ (send_tool_calls turn.tool_calls
              ++ (send no_delta (some (stop_reason turn)) ∷ done ∷ []))))
