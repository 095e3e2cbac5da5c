-- ===== src/Model/Mapping.antt =====
-- internal/model/mapping.go: model names, their tags, and the models that they stand for.
pub mod Tags
pub mod Claude
use zai_proxy.Base.{
  ℕ, zero, suc, Bool, true, false, ◌||◌, Option, none, some, List, [], ◌∷◌, ◌++◌, length,
  if◌then◌else◌,
}
use zai_proxy.Text.{Bytes, codes, bytes_eq, contains, has_suffix, trim_suffix}

-- A `map[string]string`, and its two-result lookup.
unfoldable pub lookup : Bytes → List (Bytes × Bytes) → Option Bytes
unfolding bytes_eq
lookup key [] = none
lookup key ((k, v) ∷ m) = if bytes_eq k key then some v else lookup key m

abbrev pub base_model_mapping : List (Bytes × Bytes)
base_model_mapping =
    (codes "GLM-4.5", codes "0727-360B-API")
    ∷ (codes "GLM-4.6", codes "GLM-4-6-API-V1")
    ∷ (codes "GLM-4.7", codes "glm-4.7")
    ∷ (codes "GLM-4.5-V", codes "glm-4.5v")
    ∷ (codes "GLM-4.6-V", codes "glm-4.6v")
    ∷ (codes "GLM-4.5-Air", codes "0727-106B-API")
    ∷ (codes "0808-360B-DR", codes "0808-360B-DR")
    ∷ []

abbrev pub claude_model_mapping : List (Bytes × Bytes)
claude_model_mapping =
    (codes "claude-opus-4-6", codes "GLM-4.7")
    ∷ (codes "claude-opus-4-5-20250514", codes "GLM-4.7")
    ∷ (codes "claude-sonnet-4-6", codes "GLM-4.7")
    ∷ (codes "claude-sonnet-4-5-20241022", codes "GLM-4.7")
    ∷ (codes "claude-haiku-4-5", codes "GLM-4.5-Air")
    ∷ (codes "claude-haiku-4-5-20251001", codes "GLM-4.5-Air")
    ∷ (codes "claude-3-5-sonnet-20241022", codes "GLM-4.7")
    ∷ (codes "claude-3-5-haiku-20241022", codes "GLM-4.5-Air")
    ∷ []

abbrev pub model_list : List Bytes
model_list =
    codes "GLM-4.5"
    ∷ codes "GLM-4.6"
    ∷ codes "GLM-4.7"
    ∷ codes "GLM-4.7-thinking"
    ∷ codes "GLM-4.7-thinking-search"
    ∷ codes "GLM-4.7-tools"
    ∷ codes "GLM-4.7-tools-thinking"
    ∷ codes "GLM-4.5-V"
    ∷ codes "GLM-4.6-V"
    ∷ codes "GLM-4.6-V-thinking"
    ∷ codes "GLM-4.5-Air"
    ∷ []

-- The variables of the loop in `ParseModelName`, which are also its results.
pub record ParsedModel : Type 0 where
  pub base_model : Bytes
  pub enable_thinking : Bool
  pub enable_search : Bool
  pub enable_tools : Bool

-- One round of the loop; `none` is its `break`.
unfoldable pub strip_tag : ParsedModel → Option ParsedModel
strip_tag p =
    if has_suffix (codes "-thinking") p.base_model
    then some (record p {
      enable_thinking = true;
      base_model = trim_suffix (codes "-thinking") p.base_model;
    })
    else if has_suffix (codes "-search") p.base_model
    then some
        (record p { enable_search = true; base_model = trim_suffix (codes "-search") p.base_model })
    else if has_suffix (codes "-tools") p.base_model
    then some
        (record p { enable_tools = true; base_model = trim_suffix (codes "-tools") p.base_model })
    else none

-- The loop on fuel. Each round shortens the name, so the length of the name is enough.
unfoldable pub strip_tags : ℕ → ParsedModel → ParsedModel
strip_tags zero p = p
strip_tags (suc n) p = elim (strip_tag p) [ none ↦ p | some q ↦ strip_tags n q ]

unfoldable pub parse_model_name : Bytes → ParsedModel
unfolding strip_tags
parse_model_name model = strip_tags (length model) (record {
  base_model = model;
  enable_thinking = false;
  enable_search = false;
  enable_tools = false;
})

unfoldable pub is_thinking_model : Bytes → Bool
is_thinking_model model = (parse_model_name model).enable_thinking

unfoldable pub is_search_model : Bytes → Bool
is_search_model model = (parse_model_name model).enable_search

unfoldable pub is_tools_model : Bytes → Bool
is_tools_model model = (parse_model_name model).enable_tools

unfoldable pub get_target_model : Bytes → Bytes
unfolding lookup
get_target_model model = elim (lookup (parse_model_name model).base_model base_model_mapping) [
  | some target ↦ target
  | none ↦ codes "glm-4.7"
]

-- The resolved name, and whether thinking is enabled.
unfoldable pub resolve_claude_model : Bytes → Bool → Bytes × Bool
unfolding lookup contains
resolve_claude_model model thinking_enabled =
    let base : Bytes = elim (lookup model claude_model_mapping) [
      | some b ↦ b
      | none ↦ codes "GLM-4.7"
    ] in
    let enable_thinking = contains (codes "opus") model || thinking_enabled in
    (if enable_thinking then base ++ codes "-thinking" else base, enable_thinking)
