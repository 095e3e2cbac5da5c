-- ===== src/Handler/AnthropicStream/Rounds.antt =====
-- The inner loop on text with calls ends by its breaks.
use zai_proxy.Text.Laws.{index-has_prefix, has_prefix-length}
use zai_proxy.Text.{codes, has_prefix, index, Bytes}
use zai_proxy.Handler.Events.{Reader}
use zai_proxy.Handler.AnthropicStream.Prompt.{
  Naming, open_tool_call, scan_step, scan_rounds, scan_prompt_buffer, scan_block, earlier,
  block_end,
}
use zai_proxy.Base.{
  ℕ, zero, suc, ◌≤◌, ◌<◌, ◌≡◌, refl, ◌⊎◌, inl, inr, true, Option, none, some, arith, length, drop,
  length-drop,
}

-- A buffer that no round takes anything from.
abbrev pub Settled : Bytes → Type 0
Settled s =
    (index open_tool_call s ≡ none) ⊎ ((has_prefix open_tool_call s ≡ true) × (block_end s ≡ none))

earlier-some :
    (by : ℕ) (a b : Option ℕ) (n : ℕ)
    → 0 < by
    → ((m : ℕ) → b ≡ some m → 0 < m)
    → earlier by a b ≡ some n
    → 0 < n
unfolding earlier
earlier-some by none b n p h e = h n e
earlier-some by (some i) none n p h e = ground arith
earlier-some by (some i) (some m) n p h e = let q : 0 < m = h m refl in ground arith

-- A block is not empty.
block_end-positive : (s : Bytes) (n : ℕ) → block_end s ≡ some n → 0 < n
unfolding block_end
block_end-positive s n e =
    let after_open = drop 11 s in
    earlier-some 11 (index open_tool_call after_open) _ n (omega arith)
      (λ m k.
        earlier-some 19 (index (codes "</think>") after_open) _ m (omega arith)
          (λ l q.
            earlier-some 12 (index (codes "</tool_call>") s) none l (omega arith)
              (λ j r. ground arith) q)
          k)
      e

module _ (naming : Naming) (reader : Reader) (draw : ℕ → ℕ → Bytes) where
  scan_block-Settled :
      (rounds k : ℕ) (o : Option ℕ) (s : Bytes)
      → has_prefix open_tool_call s ≡ true
      → block_end s ≡ o
      → length s ≤ rounds
      → ((b : Bytes)
          → length b < rounds
          → Settled (scan_rounds naming reader draw rounds (suc k) b).rest)
      → Settled
          (scan_block naming reader draw k (scan_rounds naming reader draw rounds (suc k)) o s).rest
  unfolding scan_block
  scan_block-Settled rounds k none s p e l h = inr (p, e)
  scan_block-Settled rounds k (some n) s p e l h = h (drop n s) (
      omega
        (arith, block_end-positive s n e, length-drop n s, has_prefix-length open_tool_call s p))

  scan_step-Settled :
      (rounds k : ℕ) (o : Option ℕ) (s : Bytes)
      → index open_tool_call s ≡ o
      → length s ≤ rounds
      → ((b : Bytes)
          → length b < rounds
          → Settled (scan_rounds naming reader draw rounds (suc k) b).rest)
      → Settled
          (scan_step naming reader draw k (scan_rounds naming reader draw rounds (suc k)) o s).rest
  unfolding scan_step
  scan_step-Settled rounds k none s e l h = inl e
  scan_step-Settled rounds k (some i) s e l h =
      scan_block-Settled rounds k (block_end (drop i s)) (drop i s)
        (index-has_prefix open_tool_call s i e) refl (omega (arith, length-drop i s)) h

  scan_rounds-Settled :
      (rounds k : ℕ) (s : Bytes)
      → length s < rounds
      → Settled (scan_rounds naming reader draw rounds k s).rest
  unfolding scan_rounds
  scan_rounds-Settled zero k s l = let no : ⊥ = omega arith in absurd no
  scan_rounds-Settled (suc rounds) k s l =
      scan_step-Settled rounds k (index open_tool_call s) s refl (omega arith)
        (λ b q. scan_rounds-Settled rounds (suc k) b q)

  -- The inner loop ends by one of its breaks on every buffer: what it leaves holds no opening tag,
  -- or starts with one whose block is not complete.
  pub scan_prompt_buffer-Settled :
      (buffer : Bytes) → Settled (scan_prompt_buffer naming reader draw buffer).rest
  unfolding scan_prompt_buffer
  scan_prompt_buffer-Settled buffer =
      scan_rounds-Settled (suc (length buffer)) 0 buffer (omega arith)
