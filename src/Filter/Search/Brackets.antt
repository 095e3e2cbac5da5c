-- ===== src/Filter/Search/Brackets.antt =====
-- Which arrays the scan of `ParseSearchResults` finds whole.
use zai_proxy.Base.{
  ℤ, pos, ℕ, suc, ◌≡◌, refl, sym, ap, ◌∙◌, Bool, true, false, not, ◌&&◌, none, some, [], ◌∷◌, ◌++◌,
  append_assoc, arith, ◌==◌, if◌then◌else◌,
}
use zai_proxy.Text.{Bytes}
use zai_proxy.Filter.Search.Results.{is_zero, from_bracket, scan_array, array_text}

-- A text in which brackets match: bytes that are no bracket, and nested texts in brackets.
pub data Nested : Type 0 where
  nothing : Nested
  byte : ℕ → Nested → Nested
  array : Nested → Nested → Nested

abbrev pub nested_text : Nested → Bytes
nested_text nothing = []
nested_text (byte c n) = c ∷ nested_text n
nested_text (array inner n) = b'[' ∷ (nested_text inner ++ b']' ∷ nested_text n)

abbrev pub no_bracket : Nested → Bool
no_bracket nothing = true
no_bracket (byte c n) = not (c == b'[') && not (c == b']') && no_bracket n
no_bracket (array inner n) = no_bracket inner && no_bracket n

-- A scanned text in front of a scan.
abbrev onto : Bytes → Bytes × ℤ → Bytes × ℤ
onto s p = (s ++ p.0, p.1)

onto-append : (s t : Bytes) (p : Bytes × ℤ) → onto s (onto t p) ≡ onto (s ++ t) p
onto-append s t p = ap (λ u. (u, p.1)) (sym (append_assoc s t p.0))

scan_array-byte :
    (c depth : ℕ) (s : Bytes)
    → (c == b'[') ≡ false
    → (c == b']') ≡ false
    → scan_array (pos depth) (c ∷ s) ≡ onto (c ∷ []) (scan_array (pos depth) s)
unfolding scan_array
scan_array-byte c depth s a b = rw (a, b) refl

scan_array-open :
    (depth : ℕ) (s : Bytes)
    → scan_array (pos depth) (b'[' ∷ s) ≡ onto (b'[' ∷ []) (scan_array (pos (suc depth)) s)
unfolding scan_array
scan_array-open depth s = refl

scan_array-close :
    (depth : ℕ) (s : Bytes)
    → scan_array (pos (suc (suc depth))) (b']' ∷ s)
      ≡ onto (b']' ∷ []) (scan_array (pos (suc depth)) s)
unfolding scan_array
scan_array-close depth s = let e : (suc depth == 0) ≡ false = ground arith in rw e refl

-- Inside an array the scan passes over a nested text.
scan_array-nested :
    (n : Nested) (depth : ℕ) (rest : Bytes)
    → no_bracket n ≡ true
    → scan_array (pos (suc depth)) (nested_text n ++ rest)
      ≡ onto (nested_text n) (scan_array (pos (suc depth)) rest)
scan_array-nested nothing depth rest h = refl
scan_array-nested (byte c n) depth rest h =
    scan_array-byte c (suc depth) (nested_text n ++ rest) (ground arith) (ground arith)
    ∙ ap (onto (c ∷ [])) (scan_array-nested n depth rest (ground arith))
scan_array-nested (array inner n) depth rest h =
    let more = b']' ∷ (nested_text n ++ rest) in
    let whole : (nested_text inner ++ b']' ∷ nested_text n) ++ rest ≡ nested_text inner ++ more =
      append_assoc (nested_text inner) (b']' ∷ nested_text n) rest in
    ap (λ s. scan_array (pos (suc depth)) (b'[' ∷ s)) whole
    ∙ scan_array-open (suc depth) (nested_text inner ++ more)
    ∙ ap (onto (b'[' ∷ [])) (
        scan_array-nested inner (suc depth) more (ground arith)
        ∙ ap (onto (nested_text inner)) (
            scan_array-close depth (nested_text n ++ rest)
            ∙ ap (onto (b']' ∷ [])) (scan_array-nested n depth rest (ground arith)))
        ∙ onto-append (nested_text inner) (b']' ∷ [])
            (onto (nested_text n) (scan_array (pos (suc depth)) rest))
        ∙ onto-append (nested_text inner ++ b']' ∷ []) (nested_text n)
            (scan_array (pos (suc depth)) rest))
    ∙ ap (λ s. onto (b'[' ∷ s) (scan_array (pos (suc depth)) rest))
        (append_assoc (nested_text inner) (b']' ∷ []) (nested_text n))

abbrev pub no_open : Bytes → Bool
no_open [] = true
no_open (c ∷ s) = not (c == b'[') && no_open s

from_bracket-gap : (gap s : Bytes) → no_open gap ≡ true → from_bracket (gap ++ b'[' ∷ s) ≡ b'[' ∷ s
unfolding from_bracket
from_bracket-gap [] s h = refl
from_bracket-gap (c ∷ gap) s h =
    let n : (c == b'[') ≡ false = ground arith in rw n (from_bracket-gap gap s (ground arith))

scan_array-whole :
    (n : Nested) (rest : Bytes)
    → no_bracket n ≡ true
    → scan_array (pos 0) (b'[' ∷ (nested_text n ++ b']' ∷ rest))
      ≡ (b'[' ∷ (nested_text n ++ b']' ∷ []), pos 0)
unfolding scan_array
scan_array-whole n rest h = ap (onto (b'[' ∷ [])) (scan_array-nested n 0 (b']' ∷ rest) h)

-- The array behind the key is cut out whole, whatever follows it, when its brackets match and no
-- bracket stands between the key and the array.
pub array_text-nested :
    (gap : Bytes) (n : Nested) (rest : Bytes)
    → no_open gap ≡ true
    → no_bracket n ≡ true
    → array_text (gap ++ b'[' ∷ (nested_text n ++ b']' ∷ rest))
      ≡ some (b'[' ∷ (nested_text n ++ b']' ∷ []))
unfolding array_text
array_text-nested gap n rest g h =
    rw (from_bracket-gap gap (nested_text n ++ b']' ∷ rest) g)
      (ap (λ p. if not (is_zero p.1) then none else some p.0) (scan_array-whole n rest h))
