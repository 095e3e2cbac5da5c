-- ===== src/Tests/Filters.antt =====
-- The filters at concrete inputs.
use zai_proxy.Base.{◌≡◌, refl, true, [], ◌∷◌, ◌++◌, arith}
use zai_proxy.Text.{codes, Bytes, index, contains, replace_all, panics, concat}
use zai_proxy.Filter.Thinking.{
  new_thinking_filter, quoted_newline, quote_start, flush_thinking, extract_complete_thinking,
}
use zai_proxy.Filter.Thinking.Extract.{ClosesEarly, extract_complete_thinking-panics_iff}
use zai_proxy.Filter.Thinking.Streaming.{process_all, process_all_new, process_all_nested}

process_all_new_example :
    (process_all new_thinking_filter
        (codes "<details>\n> one\n" ∷ codes "> two\n>" ∷ codes " three" ∷ [])).0
      ++ (flush_thinking
          (process_all new_thinking_filter
            (codes "<details>\n> one\n" ∷ codes "> two\n>" ∷ codes " three" ∷ [])).1).0
    ≡ replace_all quoted_newline (b'\n' ∷ []) (codes "one\n> two\n> three")
unfolding index contains
process_all_new_example =
    process_all_new (codes "<details>\n> one\n") (codes "> two\n>" ∷ codes " three" ∷ []) 10 refl
      refl

process_all_nested_example :
    let seen = record new_thinking_filter { has_seen_first_thinking = true } in
    let pieces = quoted_newline ∷ (quote_start ++ codes "deep") ∷ [] in
    let newline : Bytes = b'\n' ∷ [] in
    ((process_all seen pieces).0 ++ (flush_thinking (process_all seen pieces).1).0
      ≡ newline ++ replace_all quoted_newline newline (codes "deep"))
    × (replace_all quoted_newline newline (quoted_newline ++ codes "deep")
        ≡ newline ++ replace_all quoted_newline newline (codes "deep"))
    × (replace_all quoted_newline newline (concat pieces)
        ≡ newline ++ (quote_start ++ replace_all quoted_newline newline (codes "deep")))
process_all_nested_example =
    process_all_nested (record new_thinking_filter { has_seen_first_thinking = true })
      (codes "deep") refl refl

early : ClosesEarly (codes "\n</details>\n> hi")
unfolding index
early = (12, 0, refl, refl, omega arith)

extract_complete_thinking-panics_iff_example :
    (extract_complete_thinking (codes "\n</details>\n> hi") ≡ panics
      → ClosesEarly (codes "\n</details>\n> hi"))
    × (ClosesEarly (codes "\n</details>\n> hi")
        → extract_complete_thinking (codes "\n</details>\n> hi") ≡ panics)
extract_complete_thinking-panics_iff_example =
    extract_complete_thinking-panics_iff (codes "\n</details>\n> hi")
