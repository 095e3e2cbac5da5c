-- ===== src/Text.antt =====
-- What the program uses of Go's `strings` package, on bytes: `HasPrefix`, `HasSuffix`, `Index`,
-- `Contains`, `TrimSpace` on ASCII space, `TrimPrefix`, `TrimSuffix`, and equality of strings.
pub mod Laws
pub mod Matching
use Prim.Native.Char.{code}
use Prim.Native.String.{String}
use zai_proxy.Base.{
  ℕ, zero, suc, ◌+◌, ◌-◌, Bool, true, false, ◌&&◌, ◌||◌, Option, none, some, List, [], ◌∷◌, ◌++◌,
  length, take, drop, leb, ◌==◌, if◌then◌else◌,
}

abbrev pub Bytes : Type 0
Bytes = List ℕ

-- The bytes of an ASCII literal.
abbrev pub codes : String → Bytes
codes String.[] = []
codes (String.◌∷◌ c s) = code c ∷ codes s

unfoldable pub bytes_eq : Bytes → Bytes → Bool
bytes_eq [] [] = true
bytes_eq (x ∷ xs) (y ∷ ys) = x == y && bytes_eq xs ys
bytes_eq _ _ = false

abbrev pub is_empty : Bytes → Bool
is_empty [] = true
is_empty (_ ∷ _) = false

-- `strings.HasPrefix(s, prefix)`, with the prefix first.
unfoldable pub has_prefix : Bytes → Bytes → Bool
has_prefix [] s = true
has_prefix (p ∷ ps) [] = false
has_prefix (p ∷ ps) (c ∷ s) = p == c && has_prefix ps s

-- `strings.Index(s, sub)`, with `none` for -1.
unfoldable pub index : Bytes → Bytes → Option ℕ
unfolding has_prefix
index sub [] = if has_prefix sub [] then some 0 else none
index sub (c ∷ s) =
    let rest = index sub s in
    if has_prefix sub (c ∷ s) then some 0 else elim rest [ none ↦ none | some i ↦ some (suc i) ]

unfoldable pub contains : Bytes → Bytes → Bool
unfolding index
contains sub s = elim (index sub s) [ none ↦ false | some _ ↦ true ]

-- `strings.HasSuffix(s, suffix)`: the length test and the comparison of Go's version.
unfoldable pub has_suffix : Bytes → Bytes → Bool
unfolding bytes_eq
has_suffix suffix s =
    leb (length suffix) (length s) && bytes_eq (drop (length s - length suffix) s) suffix

-- `strings.TrimSuffix`
unfoldable pub trim_suffix : Bytes → Bytes → Bytes
unfolding has_suffix
trim_suffix suffix s = if has_suffix suffix s then take (length s - length suffix) s else s

-- `strings.TrimPrefix`
unfoldable pub trim_prefix : Bytes → Bytes → Bytes
unfolding has_prefix
trim_prefix prefix s = if has_prefix prefix s then drop (length prefix) s else s

-- `strings.ReplaceAll(s, old, new)` for a nonempty `old`. The first argument counts the bytes of
-- an occurrence that are still to be passed over.
unfoldable pub replace_from : ℕ → Bytes → Bytes → Bytes → Bytes
unfolding has_prefix
replace_from skip old new [] = []
replace_from (suc skip) old new (c ∷ s) = replace_from skip old new s
replace_from zero old new (c ∷ s) =
    let hit = has_prefix old (c ∷ s) in
    let rest = replace_from (if hit then length old - 1 else 0) old new s in
    if hit then new ++ rest else c ∷ rest

unfoldable pub replace_all : Bytes → Bytes → Bytes → Bytes
unfolding replace_from
replace_all = replace_from 0

-- `strings.Join(parts, "")`
abbrev pub concat : List Bytes → Bytes
concat [] = []
concat (p ∷ ps) = p ++ concat ps

-- What a Go function does that may index or slice out of range.
pub data Outcome {ℓ} (A : Type ℓ) : Type ℓ where
  value : A → Outcome A
  panics : Outcome A

-- `s[from:to]`
unfoldable pub slice : Bytes → ℕ → ℕ → Outcome Bytes
slice s from to =
    if leb from to && leb to (length s) then value (take (to - from) (drop from s)) else panics

-- The length of the white space rune that the text starts with: `unicode.IsSpace` in UTF-8.
unfoldable pub space_length : Bytes → ℕ
space_length [] = 0
space_length (c ∷ []) = if (leb 9 c && leb c 13) || c == 32 then 1 else 0
space_length (c ∷ d ∷ []) =
    if (leb 9 c && leb c 13) || c == 32
    then 1
    else if c == 0xc2 && (d == 0x85 || d == 0xa0)
    then 2
    else 0
space_length (c ∷ d ∷ e ∷ s) =
    if (leb 9 c && leb c 13) || c == 32
    then 1
    else if c == 0xc2 && (d == 0x85 || d == 0xa0)
    then 2
    else if (c == 0xe1 && d == 0x9a && e == 0x80)
        || (c == 0xe2
            && d == 0x80
            && (leb 0x80 e && leb e 0x8a || e == 0xa8 || e == 0xa9 || e == 0xaf))
        || (c == 0xe2 && d == 0x81 && e == 0x9f)
        || (c == 0xe3 && d == 0x80 && e == 0x80)
    then 3
    else 0

-- Whether the text from here on, behind the bytes to pass over, is white space only.
unfoldable pub blank_from : ℕ → Bytes → Bool
unfolding space_length
blank_from skip [] = true
blank_from (suc skip) (c ∷ s) = blank_from skip s
blank_from zero (c ∷ s) =
    let n = space_length (c ∷ s) in let rest = blank_from (n - 1) s in leb 1 n && rest

-- `strings.TrimSpace(s) == ""`
unfoldable pub is_blank : Bytes → Bool
unfolding blank_from
is_blank = blank_from 0

-- The text without the white space at its start; the first argument counts bytes to pass over.
unfoldable pub trim_left_from : ℕ → Bytes → Bytes
unfolding space_length
trim_left_from skip [] = []
trim_left_from (suc skip) (c ∷ s) = trim_left_from skip s
trim_left_from zero (c ∷ s) =
    let n = space_length (c ∷ s) in
    let rest = trim_left_from (n - 1) s in if leb 1 n then rest else c ∷ s

-- No byte inside a rune starts a white space rune, so each end of the text may be looked at.
unfoldable pub trim_right : Bytes → Bytes
unfolding is_blank
trim_right [] = []
trim_right (c ∷ s) = let rest = trim_right s in if is_blank (c ∷ s) then [] else c ∷ rest

-- `strings.TrimSpace(s)`
unfoldable pub trim_space : Bytes → Bytes
unfolding trim_left_from trim_right
trim_space s = trim_right (trim_left_from 0 s)
