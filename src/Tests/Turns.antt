-- ===== src/Tests/Turns.antt =====
-- The automatic tool loop and the writers at concrete inputs.
use zai_proxy.Base.{◌⊎◌, Bool, ℕ, ◌+◌, ◌≡◌, refl, true, false, none, some, List, [], ◌∷◌}
use zai_proxy.Text.{bytes_eq, Bytes, codes}
use zai_proxy.Model.Json.{null, str}
use zai_proxy.Model.Types.{Message, Tool, ToolCall}
use zai_proxy.Model.Mapping.{is_tools_model}
use zai_proxy.Tools.Resolution.{resolve_effective_tools}
use zai_proxy.Tools.Resolution.Laws.{Extends, resolve_effective_tools-Extends}
use zai_proxy.Handler.Turn.{all_tool_calls_auto_executable, AssistantTurn}
use zai_proxy.Handler.AutoLoop.{Env, replied, turned, run_auto_tool_loop}
use zai_proxy.Handler.OpenaiTurn.{
  StreamLine, write_openai_non_stream_turn, write_openai_stream_turn,
}
use zai_proxy.Handler.OpenaiTurn.Agreement.{new_message, receive, receive-write_openai_stream_turn}
use zai_proxy.Handler.AnthropicTurn.{
  turn_response, Event, write_anthropic_non_stream_turn, write_anthropic_stream_turn,
}
use zai_proxy.Handler.AnthropicTurn.Client.{waiting, ended, read_all}
use zai_proxy.Handler.AnthropicTurn.Agreement.{all_inputs, read-write_anthropic_stream_turn}

abbrev time_call : ToolCall
time_call = record {
  id = codes "call_1";
  kind = codes "function";
  function = record { name = codes "get_current_time"; arguments = codes "{}" };
  index = 0;
}

abbrev asking : AssistantTurn
asking = record {
  content = codes "wait";
  reasoning_content = codes "hm";
  tool_calls = time_call ∷ [];
}

-- An upstream that always asks for the time.
abbrev stubborn : Env ℕ (Unit {0}) (Unit {0})
stubborn = record {
  make_upstream_request = λ w ms. (replied (codes "glm-4.7") 200 tt, w + 1);
  read_all = λ b. none;
  collect_assistant_turn = λ b. turned asking;
  execute_builtin_tool = λ w name args. (codes "noon", w);
}

abbrev question : List Message
question =
    record {
      role = codes "user";
      content = str (codes "time?");
      tool_call_id = [];
      tool_calls = [];
    }
    ∷ []

-- It is asked five times.
five_requests : (run_auto_tool_loop stubborn (codes "get_current_time" ∷ []) 0 question).world ≡ 5
unfolding run_auto_tool_loop all_tool_calls_auto_executable
five_requests = refl

receive-write_openai_stream_turn_example :
    (lines : List StreamLine) × (write_openai_stream_turn (codes "id") 7 (codes "m") true asking
      ≡ some lines)
    × (receive new_message lines
        ≡ some (write_openai_non_stream_turn (codes "id") 7 (codes "m") asking))
receive-write_openai_stream_turn_example =
    receive-write_openai_stream_turn (codes "id") 7 (codes "m") asking

-- JSON that is an object without fields, for the calls here.
abbrev is_braces : Bytes → Bool
is_braces s = bytes_eq s (codes "{}")

read-write_anthropic_stream_turn_example :
    let response = turn_response (codes "id") (codes "m") asking in
    let sent = write_anthropic_non_stream_turn is_braces (codes "id") (codes "m") asking in
    (events : List Event) × (write_anthropic_stream_turn
        (λ i. codes "fresh")
        (codes "id")
        (codes "m")
        true
        asking
      ≡ some events)
    × (read_all waiting events ≡ ended response)
    × (((all_inputs is_braces asking.tool_calls ≡ true) × (sent ≡ some response))
        ⊎ ((all_inputs is_braces asking.tool_calls ≡ false) × (sent ≡ none)))
read-write_anthropic_stream_turn_example =
    read-write_anthropic_stream_turn (λ i. codes "fresh") (codes "id") (codes "m") is_braces asking
      (refl, tt)

abbrev clock_tool : Tool
clock_tool = record {
  kind = codes "function";
  function = record { name = codes "get_current_time"; description = []; parameters = null };
}

resolve_effective_tools-Extends_example :
    (is_tools_model (codes "GLM-4.7-tools") ≡ true
      → Extends []
          (clock_tool ∷ [])
          (resolve_effective_tools (clock_tool ∷ []) (codes "GLM-4.7-tools") []))
    × (is_tools_model (codes "GLM-4.7-tools") ≡ false
        → resolve_effective_tools (clock_tool ∷ []) (codes "GLM-4.7-tools") []
          ≡ record { tools = []; injected_builtin_names = [] })
resolve_effective_tools-Extends_example =
    resolve_effective_tools-Extends (clock_tool ∷ []) (codes "GLM-4.7-tools") []
