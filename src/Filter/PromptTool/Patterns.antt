-- ===== src/Filter/PromptTool/Patterns.antt =====
-- The regular expressions of internal/filter/prompttool.go as matchers. A lazy group ends at the
-- first place where what stands behind it matches; no alternative of a pattern overlaps another.
use zai_proxy.Base.{
  ℕ, ◌+◌, ◌-◌, Bool, not, ◌&&◌, ◌||◌, Option, none, some, [], ◌∷◌, ◌++◌, ltb, leb, ◌==◌,
  if◌then◌else◌, take, drop,
}
use zai_proxy.Text.{Bytes, codes, has_prefix, index}
use zai_proxy.Text.Matching.{Matcher, is_space, span_length, first_place}

-- The text behind the white space at the front.
abbrev pub skip_spaces : Bytes → Bytes
skip_spaces s = drop (span_length is_space s) s

-- `\[TOOL(?:_CALL)?\]`: the length of the tag at the front, or 0.
unfoldable pub alt_open_length : Bytes → ℕ
unfolding has_prefix
alt_open_length s =
    if has_prefix (codes "[TOOL]") s
    then 6
    else if has_prefix (codes "[TOOL_CALL]") s
    then 11
    else 0

-- `\[/TOOL(?:_CALL)?\]`
unfoldable pub alt_close_length : Bytes → ℕ
unfolding has_prefix
alt_close_length s =
    if has_prefix (codes "[/TOOL]") s
    then 7
    else if has_prefix (codes "[/TOOL_CALL]") s
    then 12
    else 0

-- `\s*` and the closing tag.
abbrev pub alt_end : Bytes → Bool
alt_end s = ltb 0 (alt_close_length (skip_spaces s))

-- The group of `altToolCallPattern`, which starts `start` bytes behind the match's start.
abbrev pub alt_group : ℕ → Bytes → Option (ℕ × Bytes)
alt_group start s = elim (first_place alt_end s) [
  | none ↦ none
  | some n ↦
      let spaces = span_length is_space (drop n s) in
      some (start + n + spaces + alt_close_length (drop (n + spaces) s), take n s)
]

-- `altToolCallPattern`
unfoldable pub alt_tool_call : Matcher Bytes
unfolding alt_open_length alt_close_length span_length first_place
alt_tool_call s =
    let tag = alt_open_length s in
    let spaces = span_length is_space (drop tag s) in
    if tag == 0 then none else alt_group (tag + spaces) (drop (tag + spaces) s)

abbrev pub fence : Bytes
fence = b'`' ∷ b'`' ∷ b'`' ∷ []

-- `\s*\n` and what follows it: white space whose last byte is a newline.
abbrev pub line_then : Bytes → Bytes → Bool
line_then follow s =
    let n = span_length is_space s in ltb 0 n && has_prefix (b'\n' ∷ follow) (drop (n - 1) s)

-- `\}` and the closing fence.
abbrev pub json_end : Bytes → Bool
json_end s = has_prefix (b'}' ∷ []) s && line_then fence (drop 1 s)

-- The group of `jsonBlockPattern`: up to the first brace behind the first `"name"` that the fence
-- closes.
abbrev pub json_group : ℕ → Bytes → Option (ℕ × Bytes)
json_group start s = elim (index (codes "\"name\"") s) [
  | none ↦ none
  | some name ↦ elim (first_place json_end (drop (name + 6) s)) [
    | none ↦ none
    | some n ↦
        let size = name + 6 + n + 1 in
        some (start + size + span_length is_space (drop size s) + 3, take size s)
  ]
]

-- `jsonBlockPattern`
unfoldable pub json_block : Matcher Bytes
unfolding has_prefix span_length first_place index
json_block s =
    let rest = drop 7 s in
    let spaces = span_length is_space rest in
    if not (has_prefix (fence ++ codes "json") s) || not (line_then (b'{' ∷ []) rest)
    then none
    else json_group (7 + spaces) (drop spaces rest)

-- `◇` in UTF-8.
abbrev pub diamond : Bytes
diamond = 0xe2 ∷ 0x97 ∷ 0x87 ∷ []

abbrev pub is_name_byte : ℕ → Bool
is_name_byte c =
    (leb b'a' c && leb c b'z')
    || (leb b'A' c && leb c b'Z')
    || (leb b'0' c && leb c b'9')
    || c == b'_'

-- `(.*?)◇`: the place of the diamond, with no newline before it.
abbrev pub diamond_arguments : Bytes → Option ℕ
diamond_arguments s = elim (index diamond s) [
  | none ↦ none
  | some n ↦ elim (index (b'\n' ∷ []) (take n s)) [ none ↦ some n | some i ↦ none ]
]

-- `diamondToolCallPattern`: the name and the arguments.
unfoldable pub diamond_tool_call : Matcher (Bytes × Bytes)
unfolding has_prefix span_length index
diamond_tool_call s =
    let name = span_length is_name_byte (drop 3 s) in
    let rest = drop (6 + name) s in
    if not (has_prefix diamond s) || name == 0 || not (has_prefix diamond (drop (3 + name) s))
    then none
    else elim (diamond_arguments rest) [
      | none ↦ none
      | some n ↦ some (6 + name + n + 3, (take name (drop 3 s), take n rest))
    ]
