-- ===== src/Handler/ChatStream/Found.antt =====
-- The loop of `handleStreamResponse`: calls are found exactly if some are sent.
use zai_proxy.Filter.Search.Reference.{process}
use zai_proxy.Handler.ChatStream.Chunks.{calls_found}
use zai_proxy.Handler.AnthropicStream.Prompt.{scan_rounds, scan_prompt_buffer}
use zai_proxy.Model.Types.{UpstreamData, ToolCall}
use zai_proxy.Handler.ChatStream.Flags.{
  scan_rounds-Counted, show_reasoning-Flagged, found_more, any_calls-if_any, or_false, kept,
  any_calls-append, Flagged, any_calls,
}
use zai_proxy.Handler.Collect.Finish.{process_whole, number_function_calls}
use zai_proxy.Handler.Events.{Reader}
use zai_proxy.Handler.ChatStream.{
  edited_reasoning, chat_content, chat_answer, Chatting, show_edited, send_pending,
  send_late_sources, chat_calls,
}
use zai_proxy.Handler.AnthropicStream.Shared.{
  rune_count, answer_content, if_any, flush_remaining, stream_text_with, stream_shown,
  stream_content, stream_before, Streaming,
}
use zai_proxy.Handler.AnthropicStream.Blocks.{Emission, text, thought}
use zai_proxy.Text.{is_empty, codes, bytes_eq, Outcome, Bytes, panics, value}
use zai_proxy.Base.{
  ℕ, suc, ◌+◌, ◌≡◌, refl, ◌∙◌, Bool, true, false, not, ◌&&◌, ◌||◌, List, [], ◌∷◌, ◌++◌, arith,
  if◌then◌else◌, length,
}

-- One step behind another.
pub compose :
    (a b c : Bool) (es fs : List Emission)
    → b ≡ (a || any_calls es)
    → c ≡ (b || any_calls fs)
    → c ≡ (a || any_calls (es ++ fs))
compose a b c es fs h k = rw (k, h, any_calls-append es fs) (ground arith)

-- What holds of a step of the loop that does not panic.
abbrev pub Fits : Streaming → List Emission → Outcome Chatting → Type 0
Fits s es panics = Unit
Fits s es (value s') = Flagged s (es, s'.streaming)

pub Fits-before :
    (s s' : Streaming) (es fs : List Emission) (o : Outcome Chatting)
    → Flagged s (es, s')
    → Fits s' fs o
    → Fits s (es ++ fs) o
Fits-before s s' es fs panics h k = tt
Fits-before s s' es fs (value t) h k =
    compose (calls_found s) (calls_found s') (calls_found t.streaming) es fs h k

pub stream_before-Flagged : (t : Bytes) (s : Streaming) → Flagged s (stream_before t s)
unfolding stream_before
stream_before-Flagged [] s = or_false (calls_found s)
stream_before-Flagged (c ∷ t) s = or_false (calls_found s)

pub chat_calls-Flagged :
    (draw : ℕ → Bytes) (tcs : List ToolCall) (s : Streaming) → Flagged s (chat_calls draw tcs s)
unfolding chat_calls number_function_calls
chat_calls-Flagged draw [] s = or_false (calls_found s)
chat_calls-Flagged draw (tc ∷ tcs) s = or_true (calls_found s)
  where
    or_true : (b : Bool) → true ≡ (b || true)
    or_true true = refl
    or_true false = refl

show_edited-Flagged : (r : Bytes) (s : Streaming) → Flagged s (show_edited r s)
unfolding show_edited
show_edited-Flagged [] s = or_false (calls_found s)
show_edited-Flagged (c ∷ r) s =
    rw ((any_calls-if_any (process_whole s.search_ref_filter (c ∷ r)).0).0)
      (or_false (calls_found s))

send_pending-none : (s : Chatting) → any_calls (send_pending s).0 ≡ false
unfolding send_pending
send_pending-none s =
    any_calls-append (if_any text s.pending_sources_markdown)
      (if_any text s.pending_image_search_markdown)
    ∙ rw
        (
          (any_calls-if_any s.pending_sources_markdown).2,
          (any_calls-if_any s.pending_image_search_markdown).2,
        )
        refl

send_late_sources-Flagged :
    (s : Chatting)
    → Flagged s.streaming ((send_late_sources s).0, (send_late_sources s).1.streaming)
unfolding send_late_sources
send_late_sources-Flagged s = from s.streaming.thinking_filter.has_seen_first_thinking
  where
    from :
        (b : Bool)
        → let r : List Emission × Chatting =
            if b
            then (
              if_any thought s.pending_sources_markdown,
              record s { pending_sources_markdown = [] },
            )
            else ([], s) in
          Flagged s.streaming (r.0, r.1.streaming)
    from true =
        rw ((any_calls-if_any s.pending_sources_markdown).0) (or_false (calls_found s.streaming))
    from false = or_false (calls_found s.streaming)

module _ (reader : Reader) (draw : ℕ → ℕ → ℕ → Bytes) where
  stream_text_with-Flagged :
      (has_tools : Bool) (n : ℕ) (content : Bytes) (s : Streaming)
      → Flagged s (stream_text_with kept reader draw has_tools n content s)
  unfolding stream_text_with scan_prompt_buffer
  stream_text_with-Flagged false n content s = or_false (calls_found s)
  stream_text_with-Flagged true n content s =
      let buffer = s.prompt_tool_buffer ++ content in
      let scan = scan_rounds kept reader (draw n) (suc (length buffer)) 0 buffer in
      found_more s.has_tool_calls (any_calls scan.emissions) s.collected_tool_calls scan.found
        (scan_rounds-Counted reader (draw n) (suc (length buffer)) 0 buffer)

  stream_shown-Flagged :
      (has_tools : Bool) (n : ℕ) (is_delta : Bool) (shown : Bytes) (s : Streaming)
      → Flagged s (stream_shown kept reader draw has_tools n is_delta shown s)
  unfolding stream_shown
  stream_shown-Flagged has_tools n is_delta [] s = or_false (calls_found s)
  stream_shown-Flagged has_tools n is_delta (c ∷ shown) s =
      stream_text_with-Flagged has_tools n (c ∷ shown) (record s {
        total_content_output_length =
            if is_delta
            then s.total_content_output_length + rune_count (c ∷ shown)
            else s.total_content_output_length;
      })

  stream_content-Flagged :
      (has_tools : Bool) (n : ℕ) (is_delta : Bool) (content : Bytes) (s : Streaming)
      → Flagged s (stream_content kept reader draw has_tools n is_delta content s)
  unfolding stream_content
  stream_content-Flagged has_tools n is_delta [] s = or_false (calls_found s)
  stream_content-Flagged has_tools n is_delta (c ∷ content) s =
      let p = process s.search_ref_filter (c ∷ content) in
      stream_shown-Flagged has_tools n is_delta p.0 (record s { search_ref_filter = p.1 })

  chat_content-Fits :
      (has_tools : Bool) (n : ℕ) (d : UpstreamData) (e : Bytes) (o : Outcome Bytes) (s : Chatting)
      → let r = chat_content reader draw has_tools n d e o s in Fits s.streaming r.sends r.state
  unfolding chat_content
  chat_content-Fits has_tools n d e panics s = tt
  chat_content-Fits has_tools n d e (value reasoning) s =
      let c = answer_content d e s.streaming.total_content_output_length in
      let t = record s.streaming { total_content_output_length = c.1 } in
      let p = show_edited reasoning t in
      let q =
        stream_content kept reader draw has_tools n
          (bytes_eq d.phase (codes "answer") && not (is_empty d.delta_content)) c.0 p.1 in
      compose (calls_found s.streaming) (calls_found p.1) (calls_found q.1) p.0 q.0
        (show_edited-Flagged reasoning t)
        (stream_content-Flagged has_tools n
          (bytes_eq d.phase (codes "answer") && not (is_empty d.delta_content)) c.0 p.1)

  pub chat_answer-Fits :
      (has_tools : Bool) (n : ℕ) (d : UpstreamData) (e : Bytes) (s : Chatting)
      → let r = chat_answer reader draw has_tools n d e s in Fits s.streaming r.sends r.state
  unfolding chat_answer flush_remaining
  chat_answer-Fits has_tools n d e s =
      let s1 = (send_pending s).1 in
      let p = flush_remaining s1.streaming in
      let s1' = record s1 { streaming = p.1 } in
      let q = send_late_sources s1' in
      let o = edited_reasoning d e q.1.streaming.thinking_filter in
      let r = chat_content reader draw has_tools n d e o q.1 in
      Fits-before s.streaming q.1.streaming ((send_pending s).0 ++ (p.0 ++ q.0)) r.sends r.state
        (compose (calls_found s.streaming) (calls_found s.streaming) (calls_found q.1.streaming)
          (send_pending s).0 (p.0 ++ q.0)
          (rw (send_pending-none s) (or_false (calls_found s.streaming)))
          (compose (calls_found s.streaming) (calls_found p.1) (calls_found q.1.streaming) p.0 q.0
            ((show_reasoning-Flagged _ _ s1.streaming).1) (send_late_sources-Flagged s1')))
        (chat_content-Fits has_tools n d e o q.1)
