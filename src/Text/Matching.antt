-- ===== src/Text/Matching.antt =====
-- What the program uses of Go's `regexp` on bytes: all the matches of a pattern from left to right,
-- the white space `\s`, and lazy groups as the search for the first place where the rest matches.
use zai_proxy.Base.{
  ℕ, zero, suc, ◌-◌, Bool, ◌||◌, Option, none, some, List, [], ◌∷◌, length, ◌==◌, if◌then◌else◌,
}
use zai_proxy.Text.{Bytes, has_prefix}

-- A match with its length, which is not zero, and what its groups hold.
abbrev pub Matcher : Type 0 → Type 0
Matcher A = Bytes → Option (ℕ × A)

-- `FindAllStringSubmatchIndex`: the groups of the matches in order, and the text with the matches
-- cut out. The first number counts the bytes of a match still to be passed over.
module _ {A : Type 0} (pattern_at : Matcher A) where
  unfoldable pub split_matches : ℕ → Bytes → List A × Bytes
  split_matches skip [] = ([], [])
  split_matches (suc skip) (c ∷ s) = split_matches skip s
  split_matches zero (c ∷ s) =
      let hit = pattern_at (c ∷ s) in
      let (ms, rest) = split_matches (elim hit [ none ↦ 0 | some (n, a) ↦ n - 1 ]) s in
      elim hit [ none ↦ (ms, c ∷ rest) | some (n, a) ↦ (a ∷ ms, rest) ]

-- `\s`
abbrev pub is_space : ℕ → Bool
is_space c = c == b' ' || c == b'\t' || c == b'\n' || c == 0x0c || c == b'\r'

-- The number of bytes at the front that pass the test.
unfoldable pub span_length : (ℕ → Bool) → Bytes → ℕ
span_length test [] = 0
span_length test (c ∷ s) = let rest = span_length test s in if test c then suc rest else 0

-- The first place where the test holds of the rest of the text, the end included.
unfoldable pub first_place : (Bytes → Bool) → Bytes → Option ℕ
first_place test [] = if test [] then some 0 else none
first_place test (c ∷ s) =
    let rest = first_place test s in
    if test (c ∷ s) then some 0 else elim rest [ none ↦ none | some i ↦ some (suc i) ]

-- `strings.Count(s, sub)` for a nonempty `sub`.
unfoldable pub count_from : ℕ → Bytes → Bytes → ℕ
unfolding has_prefix
count_from skip sub [] = 0
count_from (suc skip) sub (c ∷ s) = count_from skip sub s
count_from zero sub (c ∷ s) =
    let hit = has_prefix sub (c ∷ s) in
    let rest = count_from (if hit then length sub - 1 else 0) sub s in
    if hit then suc rest else rest

unfoldable pub count : Bytes → Bytes → ℕ
unfolding count_from
count = count_from 0
