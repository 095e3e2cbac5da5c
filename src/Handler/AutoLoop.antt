-- ===== src/Handler/AutoLoop.antt =====
-- `runAutoToolLoop` of internal/handler/assistant_turn.go: the proxy answers the model's calls of
-- built-in tools itself, and asks again. What the network, the reading of the answer and the tools
-- do is the section's parameter `env`; `w` is the state of the world outside.
pub mod Dialogue
pub mod Total
use zai_proxy.Base.{
  ℕ, zero, suc, ◌+◌, not, ◌||◌, Option, none, some, List, [], ◌∷◌, ◌++◌, ltb, ◌==◌, if◌then◌else◌,
  length, take,
}
use zai_proxy.Text.{Bytes, codes}
use zai_proxy.Model.Json.{Value, str}
use zai_proxy.Model.Types.{Message, ToolCall}
use zai_proxy.Handler.Turn.{
  AssistantTurn, call_name, is_nil, all_members, all_tool_calls_auto_executable,
}

-- What `makeUpstreamRequest` returns, with the model's name.
pub data Reply (Body Err : Type 0) : Type 0 where
  refused : Bytes → Err → Reply Body Err
  replied : Bytes → ℕ → Body → Reply Body Err

-- What `collectAssistantTurn` comes to: a turn, an error, or a panic, which the loop does not recover.
pub data Collected (Err : Type 0) : Type 0 where
  turned : AssistantTurn → Collected Err
  broken : Err → Collected Err
  crashed : Collected Err

pub record Env (W Body Err : Type 0) : Type 0 where
  pub make_upstream_request : W → List Message → Reply Body Err × W
  pub read_all : Body → Option Bytes
  pub collect_assistant_turn : Body → Collected Err
  pub execute_builtin_tool : W → Bytes → Bytes → Bytes × W

abbrev pub max_automatic_builtin_tool_rounds : ℕ
max_automatic_builtin_tool_rounds = 4

abbrev pub status_ok : ℕ
status_ok = 200

pub data LoopError (Err : Type 0) : Type 0 where
  request_failed : Err → LoopError Err
  upstream_status : ℕ → Bytes → LoopError Err
  collect_failed : Err → LoopError Err
  rounds_exceeded : LoopError Err
  unexpected_terminal_state : LoopError Err

pub data Ending (Err : Type 0) : Type 0 where
  returned : AssistantTurn → Ending Err
  failed : LoopError Err → Ending Err
  panicked : Ending Err

-- One round of the loop ends it, or goes on with more messages.
pub data RoundResult (W Err : Type 0) : Type 0 where
  stop : Ending Err → Bytes → W → RoundResult W Err
  again : AssistantTurn → Bytes → List Message → W → RoundResult W Err

-- The result of the loop; `requests` are the message lists that were sent upstream, in order.
pub record LoopResult (W Err : Type 0) : Type 0 where
  pub ending : Ending Err
  pub model_name : Bytes
  pub requests : List (List Message)
  pub world : W

abbrev pub assistant_message : AssistantTurn → Message
assistant_message turn = record {
  role = codes "assistant";
  content = str turn.content;
  tool_call_id = [];
  tool_calls = turn.tool_calls;
}

abbrev pub tool_message : ToolCall → Bytes → Message
tool_message tc output = record {
  role = codes "tool";
  content = str output;
  tool_call_id = tc.id;
  tool_calls = [];
}

-- `body` cut to 500 bytes; a body that cannot be read is empty.
unfoldable pub error_body : Option Bytes → Bytes
error_body none = []
error_body (some body) = if ltb 500 (length body) then take 500 body else body

module _ {W Body Err : Type 0} (env : Env W Body Err) (auto_names : List Bytes) where
  -- The inner loop over the calls of a turn.
  unfoldable pub execute_calls : W → List ToolCall → List Message × W
  execute_calls w [] = ([], w)
  execute_calls w (tc ∷ tcs) =
      let (output, w1) = env.execute_builtin_tool w (call_name tc) tc.function.arguments in
      let (rest, w2) = execute_calls w1 tcs in (tool_message tc output ∷ rest, w2)

  -- What a round does with the collected turn.
  unfoldable pub after_turn : ℕ → Bytes → W → List Message → Collected Err → RoundResult W Err
  unfolding execute_calls
  after_turn round name w messages (broken e) = stop (failed (collect_failed e)) name w
  after_turn round name w messages crashed = stop panicked name w
  after_turn round name w messages (turned turn) =
      if is_nil turn.tool_calls || is_nil auto_names
      then stop (returned turn) name w
      else if not (all_tool_calls_auto_executable turn.tool_calls auto_names)
      then stop (returned turn) name w
      else if round == max_automatic_builtin_tool_rounds
      then stop (failed rounds_exceeded) name w
      else (let (outputs, w1) = execute_calls w turn.tool_calls in
          again turn name (messages ++ assistant_message turn ∷ outputs) w1)

  unfoldable pub after_reply : ℕ → W → List Message → Reply Body Err → RoundResult W Err
  unfolding after_turn error_body
  after_reply round w messages (refused name e) = stop (failed (request_failed e)) name w
  after_reply round w messages (replied name status body) =
      if not (status == status_ok)
      then stop (failed (upstream_status status (error_body (env.read_all body)))) name w
      else after_turn round name w messages (env.collect_assistant_turn body)

  -- The `for` loop, with the rounds left; `last_model_name` is what the return behind it hands out.
  unfoldable pub rounds : ℕ → ℕ → Bytes → W → List Message → LoopResult W Err
  unfolding after_reply
  rounds zero round last_model_name w messages = record {
    ending = failed unexpected_terminal_state;
    model_name = last_model_name;
    requests = [];
    world = w;
  }
  rounds (suc left) round last_model_name w messages =
      let (reply, w1) = env.make_upstream_request w messages in
      elim (after_reply round w1 messages reply) [
        | stop ending name w2 ↦ record {
          ending = ending;
          model_name = name;
          requests = messages ∷ [];
          world = w2;
        }
        | again turn name messages' w2 ↦
            let rest = rounds left (suc round) name w2 messages' in
            record rest { requests = messages ∷ rest.requests }
      ]

  unfoldable pub run_auto_tool_loop : W → List Message → LoopResult W Err
  unfolding rounds
  run_auto_tool_loop = rounds (suc max_automatic_builtin_tool_rounds) 0 []
