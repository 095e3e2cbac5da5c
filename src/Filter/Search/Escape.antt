-- ===== src/Filter/Search/Escape.antt =====
-- The three replacements of `escapeMarkdownTitle` in one pass.
use zai_proxy.Base.{
  ℕ, ◌≡◌, refl, ap, inl, inr, true, false, ◌||◌, [], ◌∷◌, arith, ◌==◌, if◌then◌else◌, Bool-cases,
}
use zai_proxy.Text.{Bytes, has_prefix, replace_from, replace_all}
use zai_proxy.Filter.Search.Sources.{escape_markdown_title}

-- Each occurrence of the byte `b` gets a backslash.
abbrev mark : ℕ → Bytes → Bytes
mark b [] = []
mark b (c ∷ s) = if c == b then b'\\' ∷ c ∷ mark b s else c ∷ mark b s

replace_from-mark : (b : ℕ) (s : Bytes) → replace_from 0 (b ∷ []) (b'\\' ∷ b ∷ []) s ≡ mark b s
unfolding replace_from has_prefix
replace_from-mark b [] = refl
replace_from-mark b (c ∷ s) = elim (Bool-cases (c == b)) [
  | inl e ↦
      let same : c ≡ b = ground arith in
      let hit : (b == b) ≡ true = ground arith in
      rw (same, hit) (ap (λ t. b'\\' ∷ b ∷ t) (replace_from-mark b s))
  | inr n ↦
      let miss : (b == c) ≡ false = ground arith in
      rw (n, miss) (ap (◌∷◌ c) (replace_from-mark b s))
]

-- A title with a backslash before each backslash and bracket.
abbrev pub escaped : Bytes → Bytes
escaped [] = []
escaped (c ∷ s) =
    if c == b'\\' || c == b'[' || c == b']' then b'\\' ∷ c ∷ escaped s else c ∷ escaped s

marks : (s : Bytes) → mark b']' (mark b'[' (mark b'\\' s)) ≡ escaped s
marks [] = refl
marks (c ∷ s) = ground (arith, marks s)

-- The three replacements put one backslash before each backslash and each bracket of the title, and
-- change nothing else: none of them touches what another has put in.
pub escape_markdown_title-escaped : (title : Bytes) → escape_markdown_title title ≡ escaped title
unfolding escape_markdown_title replace_all
escape_markdown_title-escaped title =
    rw
      (
        replace_from-mark b'\\' title,
        replace_from-mark b'[' (mark b'\\' title),
        replace_from-mark b']' (mark b'[' (mark b'\\' title)),
      )
      (marks title)
