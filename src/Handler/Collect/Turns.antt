-- ===== src/Handler/Collect/Turns.antt =====
-- The calls of the turn that `collectAssistantTurn` returns.
use zai_proxy.Handler.Collect.{nothing_collected, collect_lines, Collecting}
use zai_proxy.Filter.PromptTool.Extract.{extract_prompt_tool_calls}
use zai_proxy.Filter.PromptTool.Squeeze.{extract_prompt_tool_calls-Extracted, Numbered, Extracted}
use zai_proxy.Model.Types.{ToolCall}
use zai_proxy.Handler.Collect.Calls.{collect_lines-Sound, Returns, Sound}
use zai_proxy.Handler.Collect.Numbering.{assign_from-Numbered}
use zai_proxy.Handler.Turn.{assign_tool_call_metadata, AssistantTurn}
use zai_proxy.Text.{concat, panics, is_empty, value, Bytes, Outcome}
use zai_proxy.Handler.Events.{Reader}
use zai_proxy.Handler.Collect.Finish.{
  process_whole, respond_to, turn_style, finish_turn, with_prompt_calls, take_prompt_calls,
  read_turn, collect_assistant_turn,
}
use mathlib.Core.Path.{subst}
use zai_proxy.Base.{
  ℕ, ◌≡◌, refl, sym, Bool, true, false, Option, none, some, List, [], ◌∷◌, arith, if◌then◌else◌,
  length,
}

abbrev pub SoundTurn : Bool → Outcome (Option AssistantTurn) → Type 0
SoundTurn has_tools panics = Unit
SoundTurn has_tools (value none) = Unit
SoundTurn has_tools (value (some turn)) = Sound has_tools turn.tool_calls

module _ (reader : Reader) (id_prefix : Bytes) where
  take_prompt_calls-Sound :
      (draw : ℕ → Bytes) (content : Bytes) (p : Bytes × List ToolCall)
      → Extracted reader.json reader.quote draw content p
      → Sound true (take_prompt_calls reader (turn_style id_prefix) draw content p).1
  unfolding take_prompt_calls assign_tool_call_metadata
  take_prompt_calls-Sound draw content (cleaned, []) h = (tt, λ no. refl)
  take_prompt_calls-Sound draw content (cleaned, tc ∷ tcs) h = (
    subst (Numbered 0) (sym (assign_from-Numbered draw id_prefix 0 (tc ∷ tcs) h.1)) h.1,
    λ no. ground arith,
  )

  with_prompt_calls-Sound :
      (draw : ℕ → Bytes) (has_tools : Bool) (content : Bytes) (tcs : List ToolCall)
      → Sound has_tools tcs
      → Sound has_tools
          (with_prompt_calls reader (turn_style id_prefix) draw has_tools content tcs).1
  unfolding with_prompt_calls
  with_prompt_calls-Sound draw false content tcs h = h
  with_prompt_calls-Sound draw true content (tc ∷ tcs) h = h
  with_prompt_calls-Sound draw true content [] h =
      take_prompt_calls-Sound draw content
        (extract_prompt_tool_calls reader.json reader.quote draw content)
        (extract_prompt_tool_calls-Extracted reader.json reader.quote draw content)

  -- The calls of a collected turn are numbered from 0, are of the kind `function` and have
  -- identifiers, whatever the upstream sends, and a turn without tools has none, if the prefix of
  -- the identifiers is not empty.
  pub collect_assistant_turn-Sound :
      (has_tools : Bool) (lines : List Bytes) (failed : Bool)
      → is_empty id_prefix ≡ false
      → SoundTurn has_tools (collect_assistant_turn reader has_tools id_prefix lines failed)
  unfolding collect_assistant_turn read_turn finish_turn
  collect_assistant_turn-Sound has_tools lines failed p =
      from failed (collect_lines reader (turn_style id_prefix) 0 has_tools lines nothing_collected)
        (collect_lines-Sound reader id_prefix has_tools 0 lines nothing_collected p
          (tt, λ no. refl))
    where
      from :
          (failed : Bool) (o : Outcome Collecting)
          → Returns (λ s. Sound has_tools s.collected_tool_calls) o
          → SoundTurn has_tools (
              respond_to reader
                (turn_style id_prefix)
                (reader.fresh (length lines))
                has_tools
                (λ thought turn. if failed then none else some turn)
                o)
      from failed panics h = tt
      from true (value s) h = tt
      from false (value s) h =
          with_prompt_calls-Sound (reader.fresh (length lines)) has_tools
            (process_whole s.search_ref_filter (concat s.chunks)).0 s.collected_tool_calls h
