-- ===== src/Filter/PromptTool/Squeeze.antt =====
-- The loop that shortens runs of newlines, and what calls come out of a text.
use zai_proxy.Base.{
  ℕ, zero, suc, ◌-◌, ◌≤◌, ◌<◌, ◌≡◌, refl, inl, inr, true, false, List, [], ◌∷◌, ◌++◌, arith,
  if◌then◌else◌, Bool-cases, length,
}
use zai_proxy.Text.{
  Bytes, codes, is_empty, has_prefix, index, contains, replace_from, replace_all, trim_space,
}
use zai_proxy.Text.Laws.{has_prefix-length}
use zai_proxy.Model.Types.{ToolCall}
use zai_proxy.Filter.ToolCall.{Json}
use zai_proxy.Filter.PromptTool.Extract.{
  three_newlines, two_newlines, squeeze, clean_up, number_calls, all_formats,
  extract_prompt_tool_calls,
}

length-replace_from_le :
    (skip : ℕ) (s : Bytes)
    → length (replace_from skip three_newlines two_newlines s) ≤ length s - skip
unfolding replace_from
length-replace_from_le skip [] = omega arith
length-replace_from_le (suc skip) (c ∷ s) = omega (arith, length-replace_from_le skip s)
length-replace_from_le zero (c ∷ s) = elim (Bool-cases (has_prefix three_newlines (c ∷ s))) [
  | inl e ↦
      rw e (omega (arith, length-replace_from_le 2 s, has_prefix-length three_newlines (c ∷ s) e))
  | inr n ↦ rw n (omega (arith, length-replace_from_le 0 s))
]

-- A round on a text with three newlines makes it shorter.
length-replace_all_lt :
    (s : Bytes)
    → contains three_newlines s ≡ true
    → length (replace_all three_newlines two_newlines s) < length s
unfolding replace_all replace_from contains index
length-replace_all_lt [] h = unfold has_prefix in cc
length-replace_all_lt (c ∷ s) h = elim (Bool-cases (has_prefix three_newlines (c ∷ s))) [
  | inl e ↦
      rw e (omega (arith, length-replace_from_le 2 s, has_prefix-length three_newlines (c ∷ s) e))
  | inr n ↦
      let later : contains three_newlines s ≡ true = ground arith in
      rw n (omega (arith, length-replace_all_lt s later))
]

squeeze-contains :
    (rounds : ℕ) (s : Bytes)
    → length s ≤ rounds
    → contains three_newlines (squeeze rounds s) ≡ false
unfolding squeeze
squeeze-contains zero [] h = unfold contains index has_prefix in refl
squeeze-contains zero (c ∷ s) h = let no : ⊥ = omega arith in absurd no
squeeze-contains (suc rounds) s h = elim (Bool-cases (contains three_newlines s)) [
  | inr e ↦ rw (e, squeeze) e
  | inl e ↦
      rw (e, squeeze)
        (squeeze-contains rounds (replace_all three_newlines two_newlines s)
          (omega (arith, length-replace_all_lt s e)))
]

-- The calls are numbered from `i` on, are of the kind `function` and have identifiers.
abbrev pub Numbered : ℕ → List ToolCall → Type 0
Numbered i [] = Unit
Numbered i (tc ∷ tcs) =
    (tc.index ≡ i) × (tc.kind ≡ codes "function") × (is_empty tc.id ≡ false) × Numbered (suc i) tcs

number_calls-Numbered :
    (fresh : ℕ → Bytes) (i : ℕ) (tcs : List ToolCall) → Numbered i (number_calls fresh i tcs)
unfolding number_calls
number_calls-Numbered fresh i [] = tt
number_calls-Numbered fresh i (tc ∷ tcs) =
    (refl, refl, named tc.id, number_calls-Numbered fresh (suc i) tcs)
  where
    named : (id : Bytes) → is_empty (if is_empty id then codes "call_" ++ fresh i else id) ≡ false
    named [] = refl
    named (c ∷ id) = refl

module _ (json : Json) (quote : Bytes → Bytes) (fresh : ℕ → Bytes) where
  -- What comes out of a text with its calls.
  abbrev pub Extracted : Bytes → Bytes × List ToolCall → Type 0
  Extracted content (cleaned, []) = cleaned ≡ content
  Extracted content (cleaned, tc ∷ tcs) =
      (contains three_newlines cleaned ≡ false) × Numbered 0 (tc ∷ tcs)

  -- A text without a call in any format stays as it is. Otherwise the calls are numbered from 0,
  -- are of the kind `function` and have identifiers, and the text that is left holds no three
  -- newlines in a row.
  pub extract_prompt_tool_calls-Extracted :
      (content : Bytes) → Extracted content (extract_prompt_tool_calls json quote fresh content)
  unfolding extract_prompt_tool_calls clean_up
  extract_prompt_tool_calls-Extracted content = from (all_formats json quote content)
    where
      from :
          (p : Bytes × List ToolCall)
          → Extracted content (elim p.1 [
            | [] ↦ (content, [])
            | c ∷ cs ↦ (clean_up p.0, number_calls fresh 0 (c ∷ cs))
          ])
      from (cleaned, []) = refl
      from (cleaned, c ∷ cs) = (
        squeeze-contains (length (trim_space cleaned)) (trim_space cleaned) (omega arith),
        number_calls-Numbered fresh 0 (c ∷ cs),
      )
