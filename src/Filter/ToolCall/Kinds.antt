-- ===== src/Filter/ToolCall/Kinds.antt =====
-- The kind of the calls that the parsers of internal/filter/toolcall.go give.
use zai_proxy.Text.Matching.{split_matches}
use zai_proxy.Text.{trim_space, is_empty, codes, Bytes}
use zai_proxy.Model.Types.{ToolCall}
use zai_proxy.Filter.ToolCall.{
  glm_tool_call_block, parse_tool_calls, parse_tool_call_json, parse_step, parse_single,
  parse_function_tool_calls, all_calls, Json,
}
use zai_proxy.Base.{
  ℕ, zero, suc, ◌≡◌, inl, inr, some, List, [], ◌∷◌, arith, Bool-cases, Option-cases, length, All,
  All-append,
}

-- Every call has the kind that the parsers write.
abbrev pub Functions : List ToolCall → Type 0
Functions = All (λ tc. tc.kind ≡ codes "function")

all_calls-Functions :
    (parse : Bytes → List ToolCall) (es : List Bytes)
    → ((e : Bytes) → Functions (parse e))
    → Functions (all_calls parse es)
all_calls-Functions parse [] h = tt
all_calls-Functions parse (e ∷ es) h =
    All-append (λ tc. tc.kind ≡ codes "function") (parse e) (all_calls parse es) (h e)
      (all_calls-Functions parse es h)

module _ (json : Json) where
  parse_single-Functions :
      (s : Bytes) (tc : ToolCall) → parse_single json s ≡ some tc → tc.kind ≡ codes "function"
  unfolding parse_single
  parse_single-Functions s tc h = ground arith

  parse_step-Functions :
      (parse : Bytes → List ToolCall) (s : Bytes)
      → ((e : Bytes) → Functions (parse e))
      → Functions (parse_step json parse s)
  unfolding parse_step
  parse_step-Functions parse s h = elim (Bool-cases (is_empty (trim_space s))) [
    | inl e ↦ rw e tt
    | inr n ↦ elim (Option-cases (parse_single json (trim_space s))) [
      | inr (tc, e) ↦ rw (n, e) (parse_single-Functions (trim_space s) tc e, tt)
      | inl e ↦ elim (Option-cases (json.read_array (trim_space s))) [
        | inl a ↦ rw (n, e, a) tt
        | inr (es, a) ↦ rw (n, e, a) (all_calls-Functions parse es h)
      ]
    ]
  ]

  parse_tool_call_json-Functions :
      (depth : ℕ) (s : Bytes) → Functions (parse_tool_call_json json depth s)
  unfolding parse_tool_call_json
  parse_tool_call_json-Functions zero s = tt
  parse_tool_call_json-Functions (suc depth) s =
      parse_step-Functions (parse_tool_call_json json depth) s
        (parse_tool_call_json-Functions depth)

  parse_tool_calls-Functions : (s : Bytes) → Functions (parse_tool_calls json s)
  unfolding parse_tool_calls
  parse_tool_calls-Functions s = parse_tool_call_json-Functions (suc (length s)) s

  pub parse_function_tool_calls-Functions :
      (s : Bytes) → Functions (parse_function_tool_calls json s)
  unfolding parse_function_tool_calls
  parse_function_tool_calls-Functions s =
      from (all_calls (parse_tool_calls json) (split_matches glm_tool_call_block 0 s).0) (
        all_calls-Functions (parse_tool_calls json) (split_matches glm_tool_call_block 0 s).0
          parse_tool_calls-Functions)
    where
      from :
          (tcs : List ToolCall)
          → Functions tcs
          → Functions (elim tcs [ [] ↦ parse_tool_calls json s | c ∷ cs ↦ c ∷ cs ])
      from [] h = parse_tool_calls-Functions s
      from (c ∷ cs) h = h
