-- ===== src/Filter/ToolCall/Depth.antt =====
-- The recursion of `parseToolCallJSON`: a JSON array holds shorter texts.
use zai_proxy.Base.{
  ◌++◌, ◌⊎◌, true, none, false, ℕ, zero, suc, ◌-◌, ◌≤◌, ◌<◌, ◌≡◌, inl, inr, some, List, [], ◌∷◌,
  arith, Bool-cases, Option-cases, length, All, All-map,
}
use zai_proxy.Text.{Bytes, is_empty, trim_space, trim_left_from, trim_right, space_length}
use zai_proxy.Model.Types.{ToolCall}
use zai_proxy.Filter.ToolCall.{
  RawSingle, parse_step, Json, parse_single, all_calls, parse_tool_call_json, parse_tool_calls,
}
use zai_proxy.Filter.ToolCall.Arguments.{CallOf, function_call-CallOf}

length-trim_left_from_le : (skip : ℕ) (s : Bytes) → length (trim_left_from skip s) ≤ length s
unfolding trim_left_from
length-trim_left_from_le skip [] = omega arith
length-trim_left_from_le (suc skip) (c ∷ s) = omega (arith, length-trim_left_from_le skip s)
length-trim_left_from_le zero (c ∷ s) =
    ground (arith, length-trim_left_from_le (space_length (c ∷ s) - 1) s)

length-trim_right_le : (s : Bytes) → length (trim_right s) ≤ length s
unfolding trim_right
length-trim_right_le [] = omega arith
length-trim_right_le (c ∷ s) = ground (arith, length-trim_right_le s)

pub length-trim_space_le : (s : Bytes) → length (trim_space s) ≤ length s
unfolding trim_space
length-trim_space_le s =
    omega (arith, length-trim_right_le (trim_left_from 0 s), length-trim_left_from_le 0 s)

module _ (json : Json) where
  -- An element of an array is shorter than its text, as in JSON: the array has its brackets.
  abbrev pub Shrinks : Type 0
  Shrinks =
      (s : Bytes) (es : List Bytes)
      → json.read_array s ≡ some es
      → All (λ e. length e < length s) es

  -- No call stands in the text itself.
  abbrev pub NoCall : Bytes → Type 0
  NoCall s =
      (json.read_single s ≡ none)
      ⊎ ((one : RawSingle) × (json.read_single s ≡ some one)
          × (is_empty one.function.name ≡ true)
          × (is_empty one.plain.name ≡ true))

  -- The calls that a text holds, at any depth of its arrays.
  mutual
    pub data Calls : Bytes → List ToolCall → Type 0 where
      blank : {s : Bytes} → is_empty (trim_space s) ≡ true → Calls s []
      in_function :
          {s : Bytes} {tc : ToolCall} (one : RawSingle)
          → is_empty (trim_space s) ≡ false
          → json.read_single (trim_space s) ≡ some one
          → is_empty one.function.name ≡ false
          → CallOf json one.id one.function tc
          → Calls s (tc ∷ [])
      in_plain :
          {s : Bytes} {tc : ToolCall} (one : RawSingle)
          → is_empty (trim_space s) ≡ false
          → json.read_single (trim_space s) ≡ some one
          → is_empty one.function.name ≡ true
          → is_empty one.plain.name ≡ false
          → CallOf json one.id one.plain tc
          → Calls s (tc ∷ [])
      in_array :
          {s : Bytes} {es : List Bytes} {calls : List ToolCall}
          → is_empty (trim_space s) ≡ false
          → NoCall (trim_space s)
          → json.read_array (trim_space s) ≡ some es
          → AllCalls es calls
          → Calls s calls
      no_array :
          {s : Bytes}
          → is_empty (trim_space s) ≡ false
          → NoCall (trim_space s)
          → json.read_array (trim_space s) ≡ none
          → Calls s []

    pub data AllCalls : List Bytes → List ToolCall → Type 0 where
      no_elements : AllCalls [] []
      element :
          {e : Bytes} {es : List Bytes} {calls others : List ToolCall}
          → Calls e calls
          → AllCalls es others
          → AllCalls (e ∷ es) (calls ++ others)

  all_calls-AllCalls :
      (f : Bytes → List ToolCall) (n : ℕ) (es : List Bytes)
      → ((e : Bytes) → length e < n → Calls e (f e))
      → All (λ e. length e < n) es
      → AllCalls es (all_calls f es)
  all_calls-AllCalls f n [] h a = no_elements
  all_calls-AllCalls f n (e ∷ es) h a = element (h e a.0) (all_calls-AllCalls f n es h a.1)

  array-Calls :
      (shrinks : Shrinks) (f : Bytes → List ToolCall) (s : Bytes)
      → ((e : Bytes) → length e < length s → Calls e (f e))
      → is_empty (trim_space s) ≡ false
      → NoCall (trim_space s)
      → Calls s (elim (json.read_array (trim_space s)) [ none ↦ [] | some es ↦ all_calls f es ])
  array-Calls shrinks f s h some_text no_call =
      elim (Option-cases (json.read_array (trim_space s))) [
        | inl none_read ↦ rw none_read (no_array some_text no_call none_read)
        | inr (es, array) ↦
            let short =
              All-map {Q = λ e. length e < length s} (λ v k. omega (arith, length-trim_space_le s))
                es (shrinks (trim_space s) es array) in
            rw array (in_array some_text no_call array (all_calls-AllCalls f (length s) es h short))
      ]

  parse_step-Calls :
      (shrinks : Shrinks) (f : Bytes → List ToolCall) (s : Bytes)
      → ((e : Bytes) → length e < length s → Calls e (f e))
      → Calls s (parse_step json f s)
  unfolding parse_step parse_single
  parse_step-Calls shrinks f s h = elim (Bool-cases (is_empty (trim_space s))) [
    | inl e ↦ rw e (blank e)
    | inr n ↦ elim (Option-cases (json.read_single (trim_space s))) [
      | inl none_read ↦ rw (n, none_read) (array-Calls shrinks f s h n (inl none_read))
      | inr (one, read) ↦ elim (Bool-cases (is_empty one.function.name)) [
        | inr named ↦
            rw (n, read, named)
              (in_function one n read named (function_call-CallOf json one.id one.function))
        | inl unnamed ↦ elim (Bool-cases (is_empty one.plain.name)) [
          | inr plain ↦
              rw (n, read, unnamed, plain)
                (in_plain one n read unnamed plain (function_call-CallOf json one.id one.plain))
          | inl neither ↦
              rw (n, read, unnamed, neither)
                (array-Calls shrinks f s h n (inr (one, read, unnamed, neither)))
        ]
      ]
    ]
  ]

  parse_tool_call_json-Calls :
      (shrinks : Shrinks) (depth : ℕ) (s : Bytes)
      → length s < depth
      → Calls s (parse_tool_call_json json depth s)
  unfolding parse_tool_call_json
  parse_tool_call_json-Calls shrinks zero s p = let no : ⊥ = omega arith in absurd no
  parse_tool_call_json-Calls shrinks (suc depth) s p =
      parse_step-Calls shrinks (parse_tool_call_json json depth) s
        (λ v k. parse_tool_call_json-Calls shrinks depth v (omega arith))

  -- The recursion of the source ends on every text with all the calls that the text holds: the one
  -- of an object, with the name and arguments of its function or its own, or those of all elements of an array, of
  -- arrays in it and so on, in order. The elements of an array are shorter than its text.
  pub parse_tool_calls-Calls : Shrinks → (s : Bytes) → Calls s (parse_tool_calls json s)
  unfolding parse_tool_calls
  parse_tool_calls-Calls shrinks s =
      parse_tool_call_json-Calls shrinks (suc (length s)) s (omega arith)
