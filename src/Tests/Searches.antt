-- ===== src/Tests/Searches.antt =====
-- The search filter at concrete inputs.
use zai_proxy.Base.{pos, ◌≡◌, refl, some, [], ◌∷◌, ◌++◌}
use mathlib.Core.List.{Perm}
use zai_proxy.Text.{codes}
use zai_proxy.Model.Types.{SearchResult}
use zai_proxy.Filter.Search.Sources.{
  escape_markdown_title, sort_results, get_search_results_markdown,
}
use zai_proxy.Filter.Search.Escape.{escape_markdown_title-escaped}
use zai_proxy.Filter.Search.Sorting.{Sorted, sort_results-Sorted_Perm}
use zai_proxy.Filter.Search.Results.{array_text}
use zai_proxy.Filter.Search.Brackets.{nothing, byte, array, array_text-nested}
use zai_proxy.Filter.Search.Reference.{
  store_results, SearchRefFilter, open_mark, close_mark, new_search_ref_filter, add_search_results,
  replace_references, process,
}
use zai_proxy.Filter.Search.Held.{Holds, process-Holds}

abbrev second : SearchResult
second = record {
  title = codes "b]";
  url = codes "u2";
  index = pos 2;
  ref_id = codes "turn0search2";
}

abbrev first : SearchResult
first = record { title = codes "a"; url = codes "u1"; index = pos 1; ref_id = codes "turn0search1" }

abbrev found : SearchRefFilter
found = add_search_results new_search_ref_filter (second ∷ first ∷ [])

process-Holds_example :
    Holds
      (replace_references 0 found.search_results (codes "see " ++ open_mark ++ codes "turn0se"))
      (process found (codes "see " ++ open_mark ++ codes "turn0se")).0
      found
      (process found (codes "see " ++ open_mark ++ codes "turn0se")).1
process-Holds_example = process-Holds found (codes "see " ++ open_mark ++ codes "turn0se")

-- The start of a reference is held back.
process_holds_start :
    process found (codes "see " ++ open_mark ++ codes "turn0se")
    ≡ (codes "see ", record found { buffer = open_mark ++ codes "turn0se" })
unfolding process
process_holds_start = refl

-- And is replaced when its end comes.
process_replaces :
    process (record found { buffer = open_mark ++ codes "turn0se" }) (codes "arch2" ++ close_mark)
    ≡ (codes "[\\[2\\]](u2)", found)
unfolding process store_results
process_replaces = refl

escape_markdown_title-escaped_example :
    escape_markdown_title (codes "a[1]\\") ≡ codes "a\\[1\\]\\\\"
escape_markdown_title-escaped_example = escape_markdown_title-escaped (codes "a[1]\\")

sort_results-Sorted_Perm_example :
    Sorted (sort_results 2 (second ∷ first ∷ []))
    × Perm (second ∷ first ∷ []) (sort_results 2 (second ∷ first ∷ []))
sort_results-Sorted_Perm_example = sort_results-Sorted_Perm (second ∷ first ∷ [])

markdown_of_two :
    get_search_results_markdown (second ∷ first ∷ [])
    ≡ codes "[\\[1\\] a](u1)\n[\\[2\\] b\\]](u2)\n\n"
unfolding get_search_results_markdown
markdown_of_two = refl

array_text-nested_example : array_text (codes " [{[]}],[") ≡ some (codes "[{[]}]")
array_text-nested_example =
    array_text-nested (codes " ") (byte b'{' (array nothing (byte b'}' nothing))) (codes ",[") refl
      refl

-- A bracket inside a string ends the array too soon.
array_text_in_string : array_text (codes "[\"]\"]") ≡ some (codes "[\"]")
unfolding array_text
array_text_in_string = refl
