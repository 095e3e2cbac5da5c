-- ===== src/Filter/Search/Reference.antt =====
-- `SearchRefFilter` of internal/filter/search.go: marks such as 【turn0search1】 are replaced by links.
-- The two regular expressions are matchers on bytes: 【 is E3 80 90, and 】 is E3 80 91.
use zai_proxy.Base.{
  ℕ, zero, suc, ◌+◌, ◌-◌, Bool, true, false, not, ◌&&◌, ◌||◌, Option, none, some, List, [], ◌∷◌,
  ◌++◌, ltb, leb, ◌==◌, if◌then◌else◌, length, take, drop,
}
use zai_proxy.Text.{Bytes, codes, bytes_eq, is_empty, has_prefix}
use zai_proxy.Model.Types.{SearchResult}
use zai_proxy.Filter.Search.Sources.{decimal}

-- A map holds a key once: adding replaces.
pub record SearchRefFilter : Type 0 where
  pub buffer : Bytes
  pub search_results : List (Bytes × SearchResult)

abbrev pub new_search_ref_filter : SearchRefFilter
new_search_ref_filter = record { buffer = []; search_results = [] }

unfoldable pub lookup_result : Bytes → List (Bytes × SearchResult) → Option SearchResult
unfolding bytes_eq
lookup_result key [] = none
lookup_result key ((k, r) ∷ m) = if bytes_eq k key then some r else lookup_result key m

unfoldable pub store_result :
    SearchResult → List (Bytes × SearchResult) → List (Bytes × SearchResult)
unfolding bytes_eq
store_result r [] = (r.ref_id, r) ∷ []
store_result r ((k, q) ∷ m) = if bytes_eq k r.ref_id then (k, r) ∷ m else (k, q) ∷ store_result r m

unfoldable pub store_results :
    List SearchResult → List (Bytes × SearchResult) → List (Bytes × SearchResult)
unfolding store_result
store_results [] m = m
store_results (r ∷ rs) m = store_results rs (store_result r m)

abbrev pub add_search_results : SearchRefFilter → List SearchResult → SearchRefFilter
add_search_results f results = record f { search_results = store_results results f.search_results }

abbrev pub is_digit : ℕ → Bool
is_digit c = leb b'0' c && leb c b'9'

-- The digits at the front: their number.
unfoldable pub digits_length : Bytes → ℕ
digits_length [] = 0
digits_length (c ∷ s) = let rest = digits_length s in if is_digit c then suc rest else 0

abbrev pub open_mark : Bytes
open_mark = 0xe3 ∷ 0x80 ∷ 0x90 ∷ []

abbrev pub close_mark : Bytes
close_mark = 0xe3 ∷ 0x80 ∷ 0x91 ∷ []

-- `\d+】` at the front: the number of digits.
abbrev pub closed_digits : Bytes → Option ℕ
closed_digits s =
    let n = digits_length s in if ltb 0 n && has_prefix close_mark (drop n s) then some n else none

-- `turn\d+search(\d+)】` at the front: the length of the part between the marks.
unfoldable pub reference_length : Bytes → Option ℕ
unfolding digits_length has_prefix
reference_length s =
    let n = digits_length (drop 4 s) in
    if not (has_prefix (codes "turn") s) || n == 0
    then none
    else if not (has_prefix (codes "search") (drop (4 + n) s))
    then none
    else elim (closed_digits (drop (10 + n) s)) [ none ↦ none | some k ↦ some (10 + n + k) ]

-- `searchRefPattern` at the front: the length of the reference.
unfoldable pub match_reference : Bytes → Option ℕ
unfolding reference_length
match_reference s = if has_prefix open_mark s then reference_length (drop 3 s) else none

unfoldable pub link : List (Bytes × SearchResult) → Bytes → Bytes
unfolding lookup_result decimal
link m ref_id = elim (lookup_result ref_id m) [
  | none ↦ []
  | some r ↦ codes "[\\[" ++ (decimal r.index ++ (codes "\\]](" ++ (r.url ++ b')' ∷ [])))
]

-- `ReplaceAllStringFunc`; the first argument counts the bytes of a match to pass over.
unfoldable pub replace_references : ℕ → List (Bytes × SearchResult) → Bytes → Bytes
unfolding match_reference link
replace_references skip m [] = []
replace_references (suc skip) m (c ∷ s) = replace_references skip m s
replace_references zero m (c ∷ s) =
    let matched = match_reference (c ∷ s) in
    let rest = replace_references (elim matched [ none ↦ 0 | some n ↦ n + 5 ]) m s in
    elim matched [ none ↦ c ∷ rest | some n ↦ link m (take n (drop 2 s)) ++ rest ]

-- The nested optional groups of `searchRefPrefixPattern`, up to the end of the text: the bytes of
-- a literal, then what may follow it.
abbrev pub partial_literal : Bytes → (Bytes → Bool) → Bytes → Bool
partial_literal [] follow s = follow s
partial_literal (p ∷ ps) follow [] = true
partial_literal (p ∷ ps) follow (c ∷ s) = c == p && partial_literal ps follow s

-- `(\d+ …)?`
abbrev pub partial_digits : (Bytes → Bool) → Bytes → Bool
partial_digits follow s = let n = digits_length s in is_empty s || (ltb 0 n && follow (drop n s))

-- `searchRefPrefixPattern` at the front.
unfoldable pub is_partial_reference : Bytes → Bool
unfolding has_prefix digits_length
is_partial_reference s =
    has_prefix open_mark s
    && partial_literal (codes "turn")
        (partial_digits (partial_literal (codes "search") (partial_digits is_empty))) (drop 3 s)

-- `searchRefPrefixPattern.MatchString`: a match may start anywhere.
unfoldable pub has_partial_reference : Bytes → Bool
unfolding is_partial_reference
has_partial_reference [] = false
has_partial_reference (c ∷ s) =
    let rest = has_partial_reference s in is_partial_reference (c ∷ s) || rest

-- The loop over the lengths of a suffix, `tries` of them from `i` on: the length held back.
unfoldable pub held_length : ℕ → ℕ → Bytes → ℕ
unfolding has_partial_reference
held_length zero i content = 0
held_length (suc tries) i content =
    let rest = held_length tries (suc i) content in
    if has_partial_reference (drop (length content - i) content) then i else rest

abbrev pub max_prefix_len : Bytes → ℕ
max_prefix_len content = if ltb (length content) 20 then length content else 20

-- Behind the replacement.
unfoldable pub hold_back : SearchRefFilter → Bytes → Bytes × SearchRefFilter
unfolding held_length
hold_back f content =
    let i = held_length (max_prefix_len content) 1 content in
    if i == 0 then (content, record f { buffer = [] }) else (
      take (length content - i) content,
      record f { buffer = drop (length content - i) content },
    )

unfoldable pub process : SearchRefFilter → Bytes → Bytes × SearchRefFilter
unfolding replace_references hold_back
process f content = hold_back f (replace_references 0 f.search_results (f.buffer ++ content))

unfoldable pub flush_references : SearchRefFilter → Bytes × SearchRefFilter
unfolding replace_references
flush_references f = (replace_references 0 f.search_results f.buffer, record f { buffer = [] })
