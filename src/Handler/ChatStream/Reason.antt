-- ===== src/Handler/ChatStream/Reason.antt =====
-- The reason that `handleStreamResponse` gives: the whole of its loop finds calls exactly if it sends
-- some.
use zai_proxy.Handler.ChatStream.Found.{
  Fits, chat_answer-Fits, chat_calls-Flagged, stream_before-Flagged, compose, Fits-before,
}
use zai_proxy.Handler.Turn.{is_nil}
use zai_proxy.Filter.ToolCall.{parse_function_tool_calls}
use zai_proxy.Filter.PromptTool.Extract.{extract_prompt_tool_calls}
use zai_proxy.Filter.Search.Results.{
  parse_image_search_results, extract_text_before_glm_block, parse_search_results,
}
use zai_proxy.Filter.Search.Reference.{flush_references}
use zai_proxy.Handler.ChatStream.Chunks.{end_chat, chat_emissions, calls_found}
use zai_proxy.Handler.AnthropicStream.Prompt.{use_calls}
use zai_proxy.Model.Types.{SearchResult, ImageSearchResult, UpstreamData}
use zai_proxy.Handler.ChatStream.Flags.{
  any_calls-use_calls, show_reasoning-Flagged, found_more, any_calls-if_any, or_false, kept,
  any_calls-append, Flagged, any_calls,
}
use zai_proxy.Handler.Events.{branch_of, line_of, get_edit_content, Branch, Reader}
use zai_proxy.Handler.ChatStream.{
  new_chatting, and_behind, chat_results, chat_lines, chat_line, chat_images, chat_event,
  chat_branch, Sends, Chatting,
}
use zai_proxy.Handler.AnthropicStream.Events.{phase_of}
use zai_proxy.Handler.AnthropicStream.Shared.{
  stream_results, stream_reasoning, new_streaming, flush_buffer, if_any, stream_before, Streaming,
}
use zai_proxy.Handler.AnthropicStream.Blocks.{Emission, text}
use zai_proxy.Text.{codes, Outcome, Bytes, panics, value}
use zai_proxy.Handler.Events.{
  Line, ignored, stops, event, thinking, results, images, mcp, search_call, calls, answer,
}
use zai_proxy.Base.{
  sym, none, inr, some, inl, ◌⊎◌, ap, Option, ℕ, suc, ◌≡◌, refl, ◌∙◌, Bool, false, not, ◌||◌, List,
  [], ◌∷◌, ◌++◌, if◌then◌else◌, length,
}

Bytes-cases : (s : Bytes) → (s ≡ []) ⊎ ((c : ℕ) × (rest : Bytes) × (s ≡ c ∷ rest))
Bytes-cases [] = inl refl
Bytes-cases (c ∷ rest) = inr (c, rest, refl)

-- The reason `tool_calls` is given exactly if calls are sent.
abbrev pub Reasoned : List Emission × Option Bytes → Type 0
Reasoned (es, none) = Unit
Reasoned (es, some reason) = reason ≡ (if any_calls es then codes "tool_calls" else codes "stop")

module _ (reader : Reader) (draw : ℕ → ℕ → ℕ → Bytes) where
  chat_results-Flagged :
      (n : ℕ) (rs : List SearchResult) (s : Chatting)
      → Flagged s.streaming ([], (chat_results reader draw n rs s).streaming)
  unfolding chat_results stream_results
  chat_results-Flagged n [] s = or_false (calls_found s.streaming)
  chat_results-Flagged n (r ∷ rs) s = or_false (calls_found s.streaming)

  chat_images-Fits :
      (is : List ImageSearchResult) (s : Streaming) (es : List Emission) (o : Outcome Chatting)
      → Fits s es o
      → let r = chat_images reader draw is (record { sends = es; state = o }) in
        Fits s r.sends r.state
  unfolding chat_images
  chat_images-Fits [] s es o h = h
  chat_images-Fits (i ∷ is) s es panics h = tt
  chat_images-Fits (i ∷ is) s es (value t) h = h

  chat_branch-Fits :
      (has_tools : Bool) (n : ℕ) (b : Branch) (d : UpstreamData) (e : Bytes) (s : Chatting)
      → let r = chat_branch reader draw has_tools n b d e s in Fits s.streaming r.sends r.state
  unfolding chat_branch stream_reasoning
  chat_branch-Fits has_tools n thinking d e s = (show_reasoning-Flagged _ _ s.streaming).0
  chat_branch-Fits has_tools n results d e s =
      chat_results-Flagged n (parse_search_results reader.read_results e) s
  chat_branch-Fits has_tools n images d e s =
      let p = stream_before (extract_text_before_glm_block e) s.streaming in
      chat_images-Fits (parse_image_search_results reader.read_image_texts e) s.streaming p.0
        (value (record s { streaming = p.1 }))
        (stream_before-Flagged (extract_text_before_glm_block e) s.streaming)
  chat_branch-Fits has_tools n mcp d e s =
      stream_before-Flagged (extract_text_before_glm_block e) s.streaming
  chat_branch-Fits has_tools n search_call d e s = or_false (calls_found s.streaming)
  chat_branch-Fits has_tools n calls d e s =
      chat_calls-Flagged (draw n 0) (parse_function_tool_calls reader.json e) s.streaming
  chat_branch-Fits has_tools n answer d e s = chat_answer-Fits reader draw has_tools n d e s

  phase_of-calls_found :
      (b : Branch) (d : UpstreamData) (s : Streaming)
      → calls_found (phase_of reader draw b d s) ≡ calls_found s
  unfolding phase_of
  phase_of-calls_found thinking d s = refl
  phase_of-calls_found results d s = refl
  phase_of-calls_found images d s = refl
  phase_of-calls_found mcp d s = refl
  phase_of-calls_found search_call d s = refl
  phase_of-calls_found calls d s = refl
  phase_of-calls_found answer d s = refl

  -- A step from a state with the same calls.
  Fits-same :
      (s s' : Streaming) (es : List Emission) (o : Outcome Chatting)
      → calls_found s' ≡ calls_found s
      → Fits s' es o
      → Fits s es o
  Fits-same s s' es panics h k = tt
  Fits-same s s' es (value t) h k = k ∙ ap (λ b. b || any_calls es) h

  chat_event-Fits :
      (has_tools : Bool) (n : ℕ) (d : UpstreamData) (s : Chatting)
      → let r = chat_event reader draw has_tools n d s in Fits s.streaming r.sends r.state
  unfolding chat_event
  chat_event-Fits has_tools n d s =
      let e = get_edit_content reader d in
      let b = branch_of has_tools d e in
      let t = phase_of reader draw b d s.streaming in
      let r = chat_branch reader draw has_tools n b d e (record s { streaming = t }) in
      Fits-same s.streaming t r.sends r.state (phase_of-calls_found b d s.streaming)
        (chat_branch-Fits has_tools n b d e (record s { streaming = t }))

  and_behind-Fits :
      (s : Streaming) (es : List Emission) (o : Outcome Chatting) (behind : Chatting → Sends)
      → Fits s es o
      → ((t : Chatting) → Fits t.streaming (behind t).sends (behind t).state)
      → let r = and_behind reader draw (record { sends = es; state = o }) behind in
        Fits s r.sends r.state
  and_behind-Fits s es panics behind h k = tt
  and_behind-Fits s es (value t) behind h k =
      Fits-before s t.streaming es (behind t).sends (behind t).state h (k t)

  chat_line-Fits :
      (has_tools : Bool) (n : ℕ) (l : Line) (behind : Chatting → Sends) (s : Chatting)
      → ((t : Chatting) → Fits t.streaming (behind t).sends (behind t).state)
      → let r = chat_line reader draw has_tools n l behind s in Fits s.streaming r.sends r.state
  unfolding chat_line
  chat_line-Fits has_tools n ignored behind s k = k s
  chat_line-Fits has_tools n stops behind s k = or_false (calls_found s.streaming)
  chat_line-Fits has_tools n (event d) behind s k =
      let r = chat_event reader draw has_tools n d s in
      and_behind-Fits s.streaming r.sends r.state behind (chat_event-Fits has_tools n d s) k

  chat_lines-Fits :
      (has_tools : Bool) (n : ℕ) (lines : List Bytes) (s : Chatting)
      → let r = chat_lines reader draw has_tools n lines s in Fits s.streaming r.sends r.state
  unfolding chat_lines
  chat_lines-Fits has_tools n [] s = or_false (calls_found s.streaming)
  chat_lines-Fits has_tools n (line ∷ lines) s =
      chat_line-Fits has_tools n (line_of reader line)
        (chat_lines reader draw has_tools (suc n) lines) s (chat_lines-Fits has_tools (suc n) lines)

  flush_buffer-Flagged : (n : ℕ) (s : Streaming) → Flagged s (flush_buffer kept reader draw n s)
  unfolding flush_buffer
  flush_buffer-Flagged n s = elim (Bytes-cases s.prompt_tool_buffer) [
    | inl e ↦ rw e (or_false (calls_found s))
    | inr (c, rest, e) ↦
        let p = extract_prompt_tool_calls reader.json reader.quote (draw n 0) (c ∷ rest) in
        rw e (
          found_more s.has_tool_calls (any_calls (use_calls kept (draw n 0) p.1 ++ if_any text p.0))
            s.collected_tool_calls p.1
            (any_calls-append (use_calls kept (draw n 0) p.1) (if_any text p.0)
              ∙ rw (any_calls-use_calls (draw n 0) p.1, (any_calls-if_any p.0).2)
                  (sym (or_false (not (is_nil p.1))))))
  ]

  end_chat-Reasoned :
      (n : ℕ) (es : List Emission) (o : Outcome Chatting)
      → Fits new_streaming es o
      → Reasoned (end_chat reader draw n es o)
  unfolding end_chat
  end_chat-Reasoned n es panics h = tt
  end_chat-Reasoned n es (value s) h =
      let p = flush_buffer kept reader draw n s.streaming in
      let rest = (flush_references p.1.search_ref_filter).0 in
      ap (λ b. if b then codes "tool_calls" else codes "stop")
        (compose false (calls_found s.streaming) (calls_found p.1) es (p.0 ++ if_any text rest) h (
          compose (calls_found s.streaming) (calls_found p.1) (calls_found p.1) p.0
            (if_any text rest) (flush_buffer-Flagged n s.streaming)
            (rw ((any_calls-if_any rest).2) (or_false (calls_found p.1)))))

  pub chat_emissions-Reasoned :
      (has_tools : Bool) (lines : List Bytes)
      → Reasoned (chat_emissions reader draw has_tools lines)
  unfolding chat_emissions
  chat_emissions-Reasoned has_tools lines =
      let r = chat_lines reader draw has_tools 0 lines new_chatting in
      end_chat-Reasoned (length lines) r.sends r.state
        (chat_lines-Fits has_tools 0 lines new_chatting)
