-- ===== src/Tests/Streams.antt =====
-- The handlers of streams at concrete inputs.
use zai_proxy.Handler.ChatStream.Received.{handle_stream_response-joined_turn, Delivered}
use zai_proxy.Handler.OpenaiTurn.{StreamLine}
use zai_proxy.Handler.ChatStream.Chunks.{handle_stream_response, chat_emissions}
use zai_proxy.Handler.Turn.{assign_tool_call_metadata}
use zai_proxy.Handler.AnthropicStream.Refusal.{handle_anthropic_stream-refused}
use zai_proxy.Handler.AnthropicTurn.{Event}
use zai_proxy.Tests.Parsers.{small_json}
use zai_proxy.Model.Types.{UpstreamData}
use zai_proxy.Handler.AnthropicStream.Prompt.{renamed, scan_prompt_buffer}
use zai_proxy.Text.{value, has_prefix, index, codes, contains, Bytes}
use zai_proxy.Handler.Events.{Reader}
use zai_proxy.Handler.Collect.Turns.{collect_assistant_turn-Sound, SoundTurn}
use zai_proxy.Handler.Collect.Agreement.{
  handle_non_stream_response-collect_assistant_turn, answer_turn, succeeds,
}
use zai_proxy.Handler.AnthropicStream.Rounds.{scan_prompt_buffer-Settled, Settled}
use zai_proxy.Handler.AnthropicStream.Events.{handle_anthropic_stream, emissions_of}
use zai_proxy.Handler.Collect.Finish.{handle_non_stream_response, collect_assistant_turn}
use zai_proxy.Handler.AnthropicTurn.Client.{waiting, refused, read_all}
use zai_proxy.Base.{
  ℕ, ◌≡◌, refl, true, false, Option, none, some, List, [], ◌∷◌, ◌==◌, if◌then◌else◌,
}

-- A payload whose first byte tells the phase: reasoning, an answer, or the edit of a call.
abbrev read_tagged : Bytes → Option UpstreamData
read_tagged [] = none
read_tagged (c ∷ s) =
    if c == b't'
    then some (record { delta_content = s; edit_content = []; phase = codes "thinking" })
    else if c == b'a'
    then some (record { delta_content = s; edit_content = []; phase = codes "answer" })
    else if c == b'c'
    then some (record { delta_content = []; edit_content = s; phase = codes "tool_call" })
    else none

abbrev tagged_reader : Reader
tagged_reader = record {
  json = small_json;
  read_data = read_tagged;
  read_results = λ s. none;
  read_image_texts = λ s. none;
  quote = λ s. s;
  range = λ n rs. rs;
  fresh = λ n i. codes "0";
}

abbrev drawn : ℕ → ℕ → ℕ → Bytes
drawn n k i = codes "0"

-- Reasoning, a call, and an answer.
abbrev some_lines : List Bytes
some_lines =
    codes "data: t> think" ∷ codes ": ping" ∷ codes "data: c{\"function\"" ∷ codes "data: aso" ∷ []

-- A call, and reasoning behind it.
abbrev late_thought : List Bytes
late_thought = codes "data: c{\"function\"" ∷ codes "data: t> think" ∷ []

handle_anthropic_stream-refused_example :
    (events : List Event) × (handle_anthropic_stream tagged_reader drawn
        (codes "m")
        (codes "glm")
        true
        true
        late_thought
      ≡ some events)
    × (read_all waiting events ≡ refused)
unfolding emissions_of contains index has_prefix
handle_anthropic_stream-refused_example =
    handle_anthropic_stream-refused (codes "m") (codes "glm") tagged_reader drawn true late_thought
      refl

scan_prompt_buffer-Settled_example :
    Settled
      (scan_prompt_buffer renamed tagged_reader
        (drawn 0)
        (codes "so <tool_call>{}</tool_call> and <tool_call>{")).rest
scan_prompt_buffer-Settled_example =
    scan_prompt_buffer-Settled renamed tagged_reader (drawn 0)
      (codes "so <tool_call>{}</tool_call> and <tool_call>{")

collect_assistant_turn-Sound_example :
    SoundTurn true (collect_assistant_turn tagged_reader true (codes "call_") some_lines false)
collect_assistant_turn-Sound_example =
    collect_assistant_turn-Sound tagged_reader (codes "call_") true some_lines false refl

handle_non_stream_response-collect_assistant_turn_example :
    succeeds (handle_non_stream_response tagged_reader (codes "c") 7 (codes "glm") true some_lines)
    ≡ answer_turn
        (codes "c")
        7
        (codes "glm")
        (collect_assistant_turn tagged_reader true (codes "call_") some_lines false)
handle_non_stream_response-collect_assistant_turn_example =
    handle_non_stream_response-collect_assistant_turn tagged_reader (codes "c") 7 (codes "glm") true
      some_lines

one_turn :
    collect_assistant_turn tagged_reader true (codes "call_") some_lines false
    ≡ value (
        some (record {
          content = codes "so";
          reasoning_content = codes "think";
          tool_calls =
              record {
                id = codes "call_0";
                kind = codes "function";
                function = record { name = codes "f"; arguments = codes "{}" };
                index = 0;
              }
              ∷ [];
        }))
unfolding collect_assistant_turn contains index has_prefix assign_tool_call_metadata
one_turn = refl

handle_stream_response-joined_turn_example :
    (ls : List StreamLine) × (handle_stream_response tagged_reader drawn
        (codes "c")
        7
        (codes "glm")
        true
        true
        some_lines
      ≡ some ls)
    × Delivered (codes "c") 7 (codes "glm") (chat_emissions tagged_reader drawn true some_lines) ls
handle_stream_response-joined_turn_example =
    handle_stream_response-joined_turn (codes "c") 7 (codes "glm") tagged_reader drawn true
      some_lines

one_chat : (chat_emissions tagged_reader drawn true some_lines).1 ≡ some (codes "tool_calls")
unfolding chat_emissions contains index has_prefix
one_chat = refl
