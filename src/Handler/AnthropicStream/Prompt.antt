-- ===== src/Handler/AnthropicStream/Prompt.antt =====
-- The inner loop of `handleAnthropicStream`, which `handleStreamResponse` of chat.go repeats: text is
-- buffered while it may hold a call.
use zai_proxy.Model.Types.{ToolCall}
use zai_proxy.Handler.AnthropicStream.Blocks.{text}
use zai_proxy.Filter.PromptTool.Extract.{extract_prompt_tool_calls}
use zai_proxy.Text.{codes, index, Bytes}
use zai_proxy.Handler.Events.{Reader}
use zai_proxy.Handler.AnthropicStream.Blocks.{tool_uses, Emission}
use zai_proxy.Base.{
  ℕ, zero, suc, ◌+◌, Option, none, some, List, [], ◌∷◌, ◌++◌, ltb, if◌then◌else◌, length, take,
  drop,
}

abbrev pub open_tool_call : Bytes
open_tool_call = codes "<tool_call>"

-- A place, `by` bytes further, if it comes before the end found so far.
unfoldable pub earlier : ℕ → Option ℕ → Option ℕ → Option ℕ
earlier by none block_end = block_end
earlier by (some i) none = some (by + i)
earlier by (some i) (some block_end) =
    if ltb (by + i) block_end then some (by + i) else some block_end

-- `blockEnd` in a buffer that starts with the opening tag.
unfoldable pub block_end : Bytes → Option ℕ
unfolding index earlier
block_end buffer =
    let after_open = drop 11 buffer in
    earlier 11 (index open_tool_call after_open) (
      earlier 19 (index (codes "</think>") after_open)
        (earlier 12 (index (codes "</tool_call>") buffer) none))

-- The calls of a text, renamed from place `i` on.
unfoldable pub rename_calls : ℕ → (ℕ → Bytes) → List ToolCall → List ToolCall
rename_calls i draw [] = []
rename_calls i draw (tc ∷ tcs) =
    record tc { id = codes "toolu_" ++ draw i } ∷ rename_calls (suc i) draw tcs

-- How calls in a text are named: anew here, and as they are in chat.go.
abbrev pub Naming : Type 0
Naming = (ℕ → Bytes) → List ToolCall → List ToolCall

abbrev pub renamed : Naming
renamed draw tcs = rename_calls 0 draw tcs

-- The calls that a text holds, as emissions.
unfoldable pub use_calls : Naming → (ℕ → Bytes) → List ToolCall → List Emission
use_calls naming draw [] = []
use_calls naming draw (tc ∷ tcs) = tool_uses draw (naming draw (tc ∷ tcs)) ∷ []

-- What a run of the loop gives: what to send, the calls, and the buffer that is left.
pub record Scan : Type 0 where
  pub emissions : List Emission
  pub found : List ToolCall
  pub rest : Bytes

abbrev pub stopped : Bytes → Scan
stopped buffer = record { emissions = []; found = []; rest = buffer }

-- Text and calls of a round, before those of the rounds behind it.
abbrev pub before : List Emission → List ToolCall → Scan → Scan
before es tcs r = record { emissions = es ++ r.emissions; found = tcs ++ r.found; rest = r.rest }

abbrev pub safe_text : Bytes → List Emission
safe_text [] = []
safe_text (c ∷ s) = text (c ∷ s) ∷ []

module _ (naming : Naming) (reader : Reader) (draw : ℕ → ℕ → Bytes) where
  -- A round of number `k` on a buffer that starts with the tag; `go` is the loop behind it.
  unfoldable pub scan_block : ℕ → (Bytes → Scan) → Option ℕ → Bytes → Scan
  unfolding extract_prompt_tool_calls use_calls
  scan_block k go none buffer = stopped buffer
  scan_block k go (some n) buffer =
      let calls = (extract_prompt_tool_calls reader.json reader.quote (draw k) (take n buffer)).1 in
      before (use_calls naming (draw k) calls) calls (go (drop n buffer))

  unfoldable pub scan_step : ℕ → (Bytes → Scan) → Option ℕ → Bytes → Scan
  unfolding scan_block block_end
  scan_step k go none buffer = stopped buffer
  scan_step k go (some i) buffer =
      before (safe_text (take i buffer)) []
        (scan_block k go (block_end (drop i buffer)) (drop i buffer))

  -- The loop from round `k` on; the first number bounds the rounds.
  unfoldable pub scan_rounds : ℕ → ℕ → Bytes → Scan
  unfolding scan_step index
  scan_rounds zero k buffer = stopped buffer
  scan_rounds (suc rounds) k buffer =
      scan_step k (scan_rounds rounds (suc k)) (index open_tool_call buffer) buffer

  -- A round takes a block off the buffer, so its length is enough.
  unfoldable pub scan_prompt_buffer : Bytes → Scan
  unfolding scan_rounds
  scan_prompt_buffer buffer = scan_rounds (suc (length buffer)) 0 buffer
