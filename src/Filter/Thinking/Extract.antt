-- ===== src/Filter/Thinking/Extract.antt =====
-- When the slice in `ExtractCompleteThinking` is out of range.
use zai_proxy.Text.Laws.{index-le-length}
use zai_proxy.Base.{ℕ, ◌+◌, ◌<◌, ◌≡◌, inl, inr, some, ◌∷◌, arith, Option-cases}
use zai_proxy.Text.{Bytes, codes, index, panics}
use zai_proxy.Filter.Thinking.{quote_start, extract_complete_thinking}

-- The closing tag stands before the end of the first quote mark.
abbrev pub ClosesEarly : Bytes → Type 0
ClosesEarly text =
    (q : ℕ) × (e : ℕ) × (index quote_start text ≡ some q)
    × (index (b'\n' ∷ codes "</details>") text ≡ some e)
    × (e < q + 2)

-- `ExtractCompleteThinking` panics exactly on the texts that hold a quote mark and a closing tag
-- whose position is before the end of the first quote mark.
pub extract_complete_thinking-panics_iff :
    (text : Bytes)
    → (extract_complete_thinking text ≡ panics → ClosesEarly text)
      × (ClosesEarly text → extract_complete_thinking text ≡ panics)
unfolding extract_complete_thinking
extract_complete_thinking-panics_iff text = (only, when)
  where
    only : extract_complete_thinking text ≡ panics → ClosesEarly text
    only h = elim (Option-cases (index quote_start text)) [
      | inl e ↦ absurd (ground arith)
      | inr (q, eq) ↦ elim (Option-cases (index (b'\n' ∷ codes "</details>") text)) [
        | inl e ↦ absurd (ground arith)
        | inr (e, ee) ↦
            (q, e, eq, ee, ground (arith, index-le-length (b'\n' ∷ codes "</details>") text e ee))
      ]
    ]

    when : ClosesEarly text → extract_complete_thinking text ≡ panics
    when (q, e, eq, ee, lt) = ground arith
