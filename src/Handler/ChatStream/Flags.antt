-- ===== src/Handler/ChatStream/Flags.antt =====
-- `handleStreamResponse` has found calls exactly if it has sent some.
use zai_proxy.Filter.Search.Reference.{process}
use zai_proxy.Filter.PromptTool.Extract.{extract_prompt_tool_calls}
use zai_proxy.Handler.Turn.{is_nil}
use zai_proxy.Handler.ChatStream.Chunks.{calls_found}
use zai_proxy.Filter.Thinking.{ThinkingFilter}
use zai_proxy.Model.Types.{ToolCall}
use zai_proxy.Handler.Events.{Reader}
use zai_proxy.Handler.AnthropicStream.Prompt.{
  open_tool_call, block_end, scan_step, scan_rounds, scan_block, safe_text, Scan, use_calls, Naming,
}
use zai_proxy.Handler.AnthropicStream.Shared.{if_any, show_reasoning, Streaming}
use zai_proxy.Handler.AnthropicStream.Blocks.{Emission, text, thought, remaining, tool_uses}
use zai_proxy.Text.{index, Bytes}
use zai_proxy.Base.{
  ℕ, zero, suc, ◌≡◌, refl, sym, ◌∙◌, Bool, true, false, not, ◌&&◌, ◌||◌, Option, none, some, List,
  [], ◌∷◌, ◌++◌, arith, take, drop,
}

abbrev pub has_calls : Emission → Bool
has_calls (tool_uses draw (tc ∷ tcs)) = true
has_calls _ = false

abbrev pub any_calls : List Emission → Bool
any_calls [] = false
any_calls (e ∷ es) = has_calls e || any_calls es

pub any_calls-append :
    (es fs : List Emission) → any_calls (es ++ fs) ≡ (any_calls es || any_calls fs)
any_calls-append [] fs = refl
any_calls-append (e ∷ es) fs = ground (arith, any_calls-append es fs)

-- A step from `s` sends calls exactly if it finds the first ones.
abbrev pub Flagged : Streaming → List Emission × Streaming → Type 0
Flagged s (es, s') = calls_found s' ≡ (calls_found s || any_calls es)

abbrev pub kept : Naming
kept draw tcs = tcs

pub or_false : (b : Bool) → b ≡ (b || false)
or_false true = refl
or_false false = refl

pub any_calls-if_any :
    (s : Bytes)
    → (any_calls (if_any thought s) ≡ false)
      × (any_calls (if_any remaining s) ≡ false)
      × (any_calls (if_any text s) ≡ false)
any_calls-if_any [] = (refl, refl, refl)
any_calls-if_any (c ∷ s) = (refl, refl, refl)

pub any_calls-use_calls :
    (draw : ℕ → Bytes) (tcs : List ToolCall)
    → any_calls (use_calls kept draw tcs) ≡ not (is_nil tcs)
unfolding use_calls
any_calls-use_calls draw [] = refl
any_calls-use_calls draw (tc ∷ tcs) = refl

any_calls-safe_text : (s : Bytes) → any_calls (safe_text s) ≡ false
any_calls-safe_text [] = refl
any_calls-safe_text (c ∷ s) = refl

is_nil-append :
    (xs ys : List ToolCall) → not (is_nil (xs ++ ys)) ≡ (not (is_nil xs) || not (is_nil ys))
is_nil-append [] ys = refl
is_nil-append (x ∷ xs) ys = refl

-- Calls that are appended to those found so far.
pub found_more :
    (has any : Bool) (tcs found : List ToolCall)
    → any ≡ not (is_nil found)
    → ((has || not (is_nil found)) && not (is_nil (tcs ++ found)))
      ≡ ((has && not (is_nil tcs)) || any)
found_more has any tcs found h = rw (h, is_nil-append tcs found) (ground arith)

module _ (reader : Reader) (draw : ℕ → ℕ → Bytes) where
  abbrev Counted : Scan → Type 0
  Counted r = any_calls r.emissions ≡ not (is_nil r.found)

  scan_block-Counted :
      (k : ℕ) (go : Bytes → Scan) (o : Option ℕ) (s : Bytes)
      → ((b : Bytes) → Counted (go b))
      → Counted (scan_block kept reader draw k go o s)
  unfolding scan_block
  scan_block-Counted k go none s h = refl
  scan_block-Counted k go (some n) s h =
      let tcs = (extract_prompt_tool_calls reader.json reader.quote (draw k) (take n s)).1 in
      any_calls-append (use_calls kept (draw k) tcs) (go (drop n s)).emissions
      ∙ rw (any_calls-use_calls (draw k) tcs, h (drop n s))
          (sym (is_nil-append tcs (go (drop n s)).found))

  scan_step-Counted :
      (k : ℕ) (go : Bytes → Scan) (o : Option ℕ) (s : Bytes)
      → ((b : Bytes) → Counted (go b))
      → Counted (scan_step kept reader draw k go o s)
  unfolding scan_step
  scan_step-Counted k go none s h = refl
  scan_step-Counted k go (some i) s h =
      any_calls-append (safe_text (take i s)) _
      ∙ rw (any_calls-safe_text (take i s))
          (scan_block-Counted k go (block_end (drop i s)) (drop i s) h)

  pub scan_rounds-Counted :
      (rounds k : ℕ) (s : Bytes) → Counted (scan_rounds kept reader draw rounds k s)
  unfolding scan_rounds
  scan_rounds-Counted zero k s = refl
  scan_rounds-Counted (suc rounds) k s =
      scan_step-Counted k (scan_rounds kept reader draw rounds (suc k)) (index open_tool_call s) s
        (scan_rounds-Counted rounds (suc k))

-- The steps that the two handlers share.
pub show_reasoning-Flagged :
    (out : Bytes) (f : ThinkingFilter) (s : Streaming)
    → Flagged s (show_reasoning thought out f s) × Flagged s (show_reasoning remaining out f s)
unfolding show_reasoning
show_reasoning-Flagged [] f s = (or_false (calls_found s), or_false (calls_found s))
show_reasoning-Flagged (c ∷ out) f s =
    let none_sent = any_calls-if_any (process s.search_ref_filter (c ∷ out)).0 in
    (rw (none_sent.0) (or_false (calls_found s)), rw (none_sent.1) (or_false (calls_found s)))
