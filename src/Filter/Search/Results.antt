-- ===== src/Filter/Search/Results.antt =====
-- `ParseSearchResults` and the image results of internal/filter/search.go. Reading JSON is the
-- parameter `unmarshal`.
use zai_proxy.Base.{
  inc, dec, ℤ, pos, negsuc, ◌+◌, ◌-◌, Bool, false, not, ◌&&◌, ◌||◌, Option, none, some, List, [],
  ◌∷◌, ◌++◌, ◌==◌, if◌then◌else◌, length, take, drop,
}
use zai_proxy.Text.{
  Bytes, codes, index, contains, has_suffix, is_empty, bytes_eq, trim_space, replace_all,
}
use zai_proxy.Model.Types.{SearchResult, ImageSearchResult}

abbrev pub is_search_result_content : Bytes → Bool
is_search_result_content edit_content = contains (codes "\"search_result\"") edit_content

unfoldable pub is_search_tool_call : Bytes → Bytes → Bool
unfolding bytes_eq contains
is_search_tool_call edit_content phase =
    if not (bytes_eq phase (codes "tool_call"))
    then false
    else contains (codes "\"mcp\"") edit_content || contains (codes "mcp-server") edit_content

abbrev pub is_zero : ℤ → Bool
is_zero (pos n) = n == 0
is_zero (negsuc n) = false

-- The text from the first opening bracket on.
unfoldable pub from_bracket : Bytes → Bytes
from_bracket [] = []
from_bracket (c ∷ s) = if c == b'[' then c ∷ s else from_bracket s

-- The loop that looks for the end: the text up to it, and the count there.
unfoldable pub scan_array : ℤ → Bytes → Bytes × ℤ
scan_array count [] = ([], count)
scan_array count (c ∷ s) =
    let count' = if c == b'[' then inc count else if c == b']' then dec count else count in
    let (json, final) = scan_array count' s in
    if c == b']' && is_zero count' then (c ∷ [], count') else (c ∷ json, final)

-- The text of the array that starts in the text.
unfoldable pub array_text : Bytes → Option Bytes
unfolding from_bracket scan_array
array_text s =
    let start = from_bracket s in
    let (json, final) = scan_array (pos 0) start in
    if is_empty start || not (is_zero final) then none else some json

abbrev pub search_result_key : Bytes
search_result_key = codes "\"search_result\":"

unfoldable pub parse_search_results :
    (Bytes → Option (List SearchResult)) → Bytes → List SearchResult
unfolding index array_text
parse_search_results unmarshal edit_content = elim (index search_result_key edit_content) [
  | none ↦ []
  | some idx ↦ elim (array_text (drop (idx + length search_result_key) edit_content)) [
    | none ↦ []
    | some json ↦ elim (unmarshal json) [ none ↦ [] | some results ↦ results ]
  ]
]

-- The loop of `ParseImageSearchResults`, which knows strings, escapes and braces.
unfoldable pub scan_image_array : Bool → Bool → ℤ → Bytes → Bytes × ℤ
scan_image_array in_string escape_next count [] = ([], count)
scan_image_array in_string escape_next count (c ∷ s) =
    let quote = if c == b'"' then not in_string else in_string in
    let in_string' = if escape_next || c == b'\\' then in_string else quote in
    let escape' = not escape_next && c == b'\\' in
    let counts = not (escape_next || c == b'\\') && not in_string' in
    let count' =
      if counts && (c == b'[' || c == b'{')
      then inc count
      else if counts && (c == b']' || c == b'}')
      then dec count
      else count in
    let (json, final) = scan_image_array in_string' escape' count' s in
    if counts && c == b']' && is_zero count' then (c ∷ [], count') else (c ∷ json, final)

unfoldable pub image_array_text : Bytes → Option Bytes
unfolding from_bracket scan_image_array
image_array_text s =
    let start = from_bracket s in
    let (json, final) = scan_image_array false false (pos 0) start in
    if is_empty start || not (is_zero final) then none else some json

-- The value behind a key, up to a semicolon.
abbrev pub value_of_key : Bytes → Bytes → Option Bytes
value_of_key key text = elim (index key text) [
  | none ↦ none
  | some i ↦ some (drop (i + length key) text)
]

abbrev pub before_semicolon : Bytes → Option Bytes
before_semicolon text = elim (index (codes ";") text) [ none ↦ none | some i ↦ some (take i text) ]

unfoldable pub parse_image_search_text : Bytes → ImageSearchResult
unfolding index trim_space
parse_image_search_text text = record {
  title = elim (value_of_key (codes "Title: ") text) [
    | none ↦ []
    | some rest ↦ elim (before_semicolon rest) [ none ↦ [] | some v ↦ trim_space v ]
  ];
  link = elim (value_of_key (codes "Link: ") text) [
    | none ↦ []
    | some rest ↦ elim (before_semicolon rest) [ none ↦ trim_space rest | some v ↦ trim_space v ]
  ];
  thumbnail = elim (value_of_key (codes "Thumbnail: ") text) [
    | none ↦ []
    | some rest ↦ trim_space rest
  ];
}

-- The loop over the texts of the items whose type is `text`.
unfoldable pub image_results : List Bytes → List ImageSearchResult
unfolding parse_image_search_text
image_results [] = []
image_results (text ∷ texts) =
    let result = parse_image_search_text text in
    let rest = image_results texts in
    if not (is_empty result.title) && not (is_empty result.link) then result ∷ rest else rest

-- `unmarshal` gives the texts of the items whose `type` is `text`, in order.
unfoldable pub parse_image_search_results :
    (Bytes → Option (List Bytes)) → Bytes → List ImageSearchResult
unfolding index image_array_text image_results
parse_image_search_results unmarshal edit_content =
    elim (index (codes "\"result\":") edit_content) [
      | none ↦ []
      | some idx ↦ elim (image_array_text (drop (idx + 9) edit_content)) [
        | none ↦ []
        | some json ↦ elim (unmarshal json) [ none ↦ [] | some texts ↦ image_results texts ]
      ]
    ]

abbrev pub image_lines : List ImageSearchResult → Bytes
image_lines [] = []
image_lines (r ∷ rs) =
    codes "\n!["
    ++ (replace_all (b']' ∷ []) (b'\\' ∷ b']' ∷ [])
          (replace_all (b'[' ∷ []) (b'\\' ∷ b'[' ∷ []) r.title)
        ++ (codes "](" ++ (r.link ++ b')' ∷ image_lines rs)))

unfoldable pub format_image_search_results : List ImageSearchResult → Bytes
unfolding replace_all
format_image_search_results [] = []
format_image_search_results (r ∷ rs) = image_lines (r ∷ rs) ++ b'\n' ∷ []

unfoldable pub extract_text_before_glm_block : Bytes → Bytes
unfolding index has_suffix
extract_text_before_glm_block edit_content = elim (index (codes "<glm_block") edit_content) [
  | none ↦ []
  | some idx ↦
      let text = take idx edit_content in
      if has_suffix (codes "\n") text then take (length text - 1) text else text
]
