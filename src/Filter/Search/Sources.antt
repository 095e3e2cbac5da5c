-- ===== src/Filter/Search/Sources.antt =====
-- `GetSearchResultsMarkdown` and `escapeMarkdownTitle` of internal/filter/search.go. Go ranges over a
-- map in any order: the results come as a list in the order that the range gave.
use zai_proxy.Base.{
  negsuc, pos, ℤ, ℕ, zero, suc, ◌+◌, ◌/◌, ◌%◌, Bool, true, false, List, [], ◌∷◌, ◌++◌, ltb,
  if◌then◌else◌, length,
}
use zai_proxy.Model.Types.{SearchResult}
use zai_proxy.Text.{Bytes, codes, replace_all}

unfoldable pub escape_markdown_title : Bytes → Bytes
unfolding replace_all
escape_markdown_title title = replace_all (b']' ∷ []) (b'\\' ∷ b']' ∷ []) (
    replace_all (b'[' ∷ []) (b'\\' ∷ b'[' ∷ [])
      (replace_all (b'\\' ∷ []) (b'\\' ∷ b'\\' ∷ []) title))

-- `x > y`
abbrev pub gt_int : ℤ → ℤ → Bool
gt_int (pos m) (pos n) = ltb n m
gt_int (pos m) (negsuc n) = true
gt_int (negsuc m) (pos n) = false
gt_int (negsuc m) (negsuc n) = ltb m n

-- The inner loop: `x` stands at place `i`, and is swapped with each result it is greater than.
unfoldable pub exchange : SearchResult → List SearchResult → SearchResult × List SearchResult
exchange x [] = (x, [])
exchange x (y ∷ ys) =
    let greater = gt_int x.index y.index in
    let (z, zs) = exchange (if greater then y else x) ys in (z, (if greater then x else y) ∷ zs)

-- The outer loop, once for each result; the list is the part from place `i` on.
unfoldable pub sort_results : ℕ → List SearchResult → List SearchResult
unfolding exchange
sort_results zero rs = rs
sort_results (suc n) [] = []
sort_results (suc n) (r ∷ rs) = let (z, zs) = exchange r rs in z ∷ sort_results n zs

-- The decimal digits of a number; the first argument is at least the number.
unfoldable pub digits : ℕ → ℕ → Bytes
digits zero n = (b'0' + n % 10) ∷ []
digits (suc fuel) n =
    let rest = digits fuel (n / 10) in
    if ltb n 10 then (b'0' + n) ∷ [] else rest ++ (b'0' + n % 10) ∷ []

-- `%d`
unfoldable pub decimal : ℤ → Bytes
unfolding digits
decimal (pos n) = digits n n
decimal (negsuc n) = b'-' ∷ digits (suc n) (suc n)

unfoldable pub source_line : SearchResult → Bytes
unfolding escape_markdown_title decimal
source_line r =
    codes "[\\["
    ++ (decimal r.index
        ++ (codes "\\] "
            ++ (escape_markdown_title r.title ++ (codes "](" ++ (r.url ++ b')' ∷ b'\n' ∷ [])))))

abbrev pub source_lines : List SearchResult → Bytes
source_lines [] = []
source_lines (r ∷ rs) = source_line r ++ source_lines rs

unfoldable pub get_search_results_markdown : List SearchResult → Bytes
unfolding sort_results source_line
get_search_results_markdown [] = []
get_search_results_markdown (r ∷ rs) =
    source_lines (sort_results (length (r ∷ rs)) (r ∷ rs)) ++ b'\n' ∷ []
