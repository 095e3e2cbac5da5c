-- ===== src/Filter/Thinking/Streaming.antt =====
-- The pieces of a reasoning text against the whole of it.
use zai_proxy.Base.{
  ◌+◌, drop, some, append_assoc, append-nil, sym, ◌∙◌, ℕ, ◌≡◌, refl, ap, true, false, List, [], ◌∷◌,
  ◌++◌, arith,
}
use zai_proxy.Text.{concat, bytes_eq, Bytes, codes, has_prefix, replace_all, contains, index}
use zai_proxy.Filter.Thinking.{
  new_thinking_filter, quote_start, flush_thinking, ThinkingFilter, quoted_newline,
  process_thinking,
}
use zai_proxy.Filter.Thinking.Hold.{shown-append-held, process_content_lem, held, shown}
use zai_proxy.Filter.Thinking.Unquote.{
  unquote, unquote-nil, unquote_hit, unquote_miss, unquote-Splits, unquote-held, IsFlat,
  IsFlat-contains,
}

-- `ProcessThinking` on the pieces in turn: what it returns, joined, and the last state.
unfoldable pub process_all : ThinkingFilter → List Bytes → Bytes × ThinkingFilter
process_all f [] = ([], f)
process_all f (d ∷ ds) =
    let (out, g) = process_thinking f d in let (rest, h) = process_all g ds in (out ++ rest, h)

-- One call, on a filter that has seen its first quote.
process_thinking_seen :
    (f : ThinkingFilter) (d : Bytes)
    → f.has_seen_first_thinking ≡ true
    → process_thinking f d
      ≡ (shown (unquote (f.buffer ++ d)), record f { buffer = held (unquote (f.buffer ++ d)) })
unfolding process_thinking unquote
process_thinking_seen f d seen = ground (arith, process_content_lem f d)

process_all_lem :
    (ds : List Bytes) (f : ThinkingFilter)
    → f.has_seen_first_thinking ≡ true
    → unquote f.buffer ≡ f.buffer
    → IsFlat (f.buffer ++ concat ds)
    → (process_all f ds).0 ++ (process_all f ds).1.buffer ≡ unquote (f.buffer ++ concat ds)
unfolding process_all
process_all_lem [] f seen plain flat = rw append-nil (sym plain)
process_all_lem (d ∷ ds) f seen plain flat =
    let u = unquote (f.buffer ++ d) in
    let flat' = rw (← append_assoc f.buffer d (concat ds)) at flat in
    let split = unquote-Splits (f.buffer ++ d) (concat ds) flat' in
    rw (process_thinking_seen f d seen) (
      rw (append_assoc (shown u)) (
        ap (◌++◌ (shown u))
          (process_all_lem ds (record f { buffer = held u }) seen (unquote-held u) split.1)
        ∙ sym split.0
        ∙ ap unquote (append_assoc f.buffer d (concat ds))))

process_all-replace_all :
    (f : ThinkingFilter) (ds : List Bytes)
    → f.has_seen_first_thinking ≡ true
    → f.buffer ≡ []
    → contains (b'\n' ∷ codes "> >") (concat ds) ≡ false
    → (process_all f ds).0 ++ (flush_thinking (process_all f ds).1).0 ≡ unquote (concat ds)
unfolding flush_thinking
process_all-replace_all f ds seen empty flat =
    process_all_lem ds f seen (rw empty unquote-nil) (rw empty (IsFlat-contains (concat ds) flat))
    ∙ ap (λ b. unquote (b ++ concat ds)) empty

process_all_first :
    (f : ThinkingFilter) (d : Bytes) (ds : List Bytes) (i : ℕ)
    → f.has_seen_first_thinking ≡ false
    → index quote_start d ≡ some i
    → process_all f (d ∷ ds)
      ≡ process_all (record f { has_seen_first_thinking = true }) (drop (i + 2) d ∷ ds)
unfolding process_all process_thinking
process_all_first f d ds i unseen at = rw (unseen, at)

-- A new filter whose first piece holds a quote mark returns in all, with `Flush` at the end, what
-- `ReplaceAll` makes of the text behind that mark, however the text is cut into pieces: each
-- newline with a quote mark becomes a newline. The text behind the mark holds no quoted line that
-- starts with a second quote mark.
pub process_all_new :
    (d : Bytes) (ds : List Bytes) (i : ℕ)
    → index quote_start d ≡ some i
    → contains (b'\n' ∷ codes "> >") (drop (i + 2) d ++ concat ds) ≡ false
    → (process_all new_thinking_filter (d ∷ ds)).0
        ++ (flush_thinking (process_all new_thinking_filter (d ∷ ds)).1).0
      ≡ replace_all quoted_newline (b'\n' ∷ []) (drop (i + 2) d ++ concat ds)
unfolding unquote
process_all_new d ds i at flat = rw (process_all_first new_thinking_filter d ds i refl at) (
    process_all-replace_all (record new_thinking_filter { has_seen_first_thinking = true })
      (drop (i + 2) d ∷ ds) refl refl flat)

-- After a lone quoted newline the filter holds a newline back.
process_thinking_newline :
    (f : ThinkingFilter)
    → f.has_seen_first_thinking ≡ true
    → f.buffer ≡ []
    → process_thinking f quoted_newline ≡ ([], record f { buffer = b'\n' ∷ [] })
process_thinking_newline f seen empty =
    let e : unquote (f.buffer ++ quoted_newline) ≡ b'\n' ∷ [] =
      rw empty (unquote_hit [] ∙ ap (◌∷◌ b'\n') unquote-nil) in
    process_thinking_seen f quoted_newline seen ∙ rw_result (unquote (f.buffer ++ quoted_newline)) e
  where
    rw_result :
        (u : Bytes)
        → u ≡ b'\n' ∷ []
        → ◌≡◌ {A = Bytes × ThinkingFilter}
            (shown u, record f { buffer = held u })
            ([], record f { buffer = b'\n' ∷ [] })
    rw_result u e = rw e (unfold shown held bytes_eq in refl)

nested_result :
    (f : ThinkingFilter) (t : Bytes)
    → f.has_seen_first_thinking ≡ true
    → f.buffer ≡ []
    → let r = process_all f (quoted_newline ∷ (quote_start ++ t) ∷ []) in
      r.0 ++ r.1.buffer ≡ b'\n' ∷ unquote t
unfolding process_all
nested_result f t seen empty = rw (process_thinking_newline f seen empty) (
    rw (process_thinking_seen (record f { buffer = b'\n' ∷ [] }) (quote_start ++ t) seen) (
      rw (append-nil (shown (unquote (b'\n' ∷ b'>' ∷ b' ' ∷ t))))
        (shown-append-held _ ∙ unquote_hit t)))

whole_nested :
    (t : Bytes) → unquote (quoted_newline ++ (quote_start ++ t)) ≡ b'\n' ∷ b'>' ∷ b' ' ∷ unquote t
whole_nested t =
    unquote_hit (quote_start ++ t)
    ∙ ap (◌∷◌ b'\n') (
        unquote_miss b'>' (b' ' ∷ t) (unfold has_prefix in refl)
        ∙ ap (◌∷◌ b'>') (unquote_miss b' ' t (unfold has_prefix in refl)))

-- A doubly quoted line that is cut behind its first quote mark loses the second one, whatever
-- follows: for the two pieces the filter returns what `ReplaceAll` makes of the line with one mark,
-- and the replacement on the whole text keeps the second mark behind the newline.
pub process_all_nested :
    (f : ThinkingFilter) (t : Bytes)
    → f.has_seen_first_thinking ≡ true
    → f.buffer ≡ []
    → let pieces = quoted_newline ∷ (quote_start ++ t) ∷ [] in
      let newline : Bytes = b'\n' ∷ [] in
      ((process_all f pieces).0 ++ (flush_thinking (process_all f pieces).1).0
        ≡ newline ++ replace_all quoted_newline newline t)
      × (replace_all quoted_newline newline (quoted_newline ++ t)
          ≡ newline ++ replace_all quoted_newline newline t)
      × (replace_all quoted_newline newline (concat pieces)
          ≡ newline ++ (quote_start ++ replace_all quoted_newline newline t))
unfolding flush_thinking unquote
process_all_nested f t seen empty = (
  nested_result f t seen empty,
  unquote_hit t,
  whole_nested (t ++ []) ∙ ap (λ u. b'\n' ∷ b'>' ∷ b' ' ∷ unquote u) (append-nil t),
)
