-- ===== src/Filter/ToolCall/Arguments.antt =====
-- What `decodeToolArgumentsField` makes of the fields of a call.
use zai_proxy.Base.{
  ◌==◌, refl, Bool, ◌⊎◌, true, none, false, ◌≡◌, inl, inr, some, [], ◌∷◌, Bool-cases, Option-cases,
}
use mathlib.Core.Path.{subst}
use zai_proxy.Text.{codes, bytes_eq, Bytes, is_empty, trim_space}
use zai_proxy.Model.Types.{ToolCall}
use zai_proxy.Filter.ToolCall.{
  decode_tool_arguments_field, decode_string, call_arguments, RawCall, function_call, Json,
}

module _ (json : Json) where
  abbrev pub starts_quote : Bytes → Bool
  starts_quote [] = false
  starts_quote (c ∷ s) = c == b'"'

  -- The arguments that stand in a field: none if it is missing or null, the text of a string, or
  -- else the JSON of the field.
  abbrev pub Field : Bytes → Bytes → Type 0
  Field raw a =
      ((a ≡ [])
        × ((is_empty (trim_space raw) ≡ true) ⊎ (bytes_eq (trim_space raw) (codes "null") ≡ true)))
      ⊎ ((is_empty (trim_space raw) ≡ false)
          × (bytes_eq (trim_space raw) (codes "null") ≡ false)
          × (((starts_quote (trim_space raw) ≡ true) × (json.read_string (trim_space raw) ≡ some a))
              ⊎ ((a ≡ trim_space raw)
                  × ((starts_quote (trim_space raw) ≡ false)
                      ⊎ (json.read_string (trim_space raw) ≡ none)))))

  decode_string-cases :
      (t : Bytes)
      → ((starts_quote t ≡ true) × (json.read_string t ≡ some (decode_string json t)))
        ⊎ ((decode_string json t ≡ t) × ((starts_quote t ≡ false) ⊎ (json.read_string t ≡ none)))
  unfolding decode_string
  decode_string-cases [] = inr (refl, inl refl)
  decode_string-cases (c ∷ s) = elim (Bool-cases (c == b'"')) [
    | inr other ↦ rw other (inr (refl, inl refl))
    | inl quoted ↦ elim (Option-cases (json.read_string (c ∷ s))) [
      | inl broken ↦ rw (quoted, broken) (inr (refl, inr refl))
      | inr (a, read) ↦ rw (quoted, read) (inl (refl, refl))
    ]
  ]

  decode-Field : (raw : Bytes) → Field raw (decode_tool_arguments_field json raw)
  unfolding decode_tool_arguments_field
  decode-Field raw = elim (Bool-cases (is_empty (trim_space raw))) [
    | inl e ↦ rw e (inl (refl, inl refl))
    | inr n ↦ elim (Bool-cases (bytes_eq (trim_space raw) (codes "null"))) [
      | inl e ↦ rw (n, e) (inl (refl, inr refl))
      | inr m ↦ rw (n, m) (inr (refl, refl, decode_string-cases (trim_space raw)))
    ]
  ]

  -- The call that an object stands for: its `arguments`, or its `input` where these are empty.
  pub record CallOf (id : Bytes) (c : RawCall) (tc : ToolCall) : Type 0 where
    pub same_id : tc.id ≡ id
    pub is_function : tc.kind ≡ codes "function"
    pub same_name : tc.function.name ≡ c.name
    pub not_numbered : tc.index ≡ 0
    pub same_arguments :
        (Field c.arguments tc.function.arguments × (is_empty tc.function.arguments ≡ false))
        ⊎ (Field c.arguments [] × Field c.input tc.function.arguments)

  is_empty-nil : (a : Bytes) → is_empty a ≡ true → a ≡ []
  is_empty-nil [] h = refl
  is_empty-nil (c ∷ a) h = cc

  pub function_call-CallOf : (id : Bytes) (c : RawCall) → CallOf id c (function_call json id c)
  unfolding call_arguments
  function_call-CallOf id c = record {
    same_id = refl;
    is_function = refl;
    same_name = refl;
    not_numbered = refl;
    same_arguments = elim (Bool-cases (is_empty (decode_tool_arguments_field json c.arguments))) [
      | inr some_arguments ↦ rw some_arguments (inl (decode-Field c.arguments, some_arguments))
      | inl none_there ↦ rw none_there (
          inr (
            subst (Field c.arguments)
                (is_empty-nil (decode_tool_arguments_field json c.arguments) none_there)
                (decode-Field c.arguments),
            decode-Field c.input,
          ))
    ];
  }
