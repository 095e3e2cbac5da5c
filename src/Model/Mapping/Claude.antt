-- ===== src/Model/Mapping/Claude.antt =====
-- Claude model names: what `ResolveClaudeModel` hands to the code that reads model names.
use zai_proxy.Base.{
  ◌≡◌, refl, ◌⊎◌, inl, inr, Bool, true, false, ◌||◌, some, List, [], ◌∷◌, ◌++◌, if◌then◌else◌,
  Bool-cases, Option-cases, All,
}
use mathlib.Core.Path.{subst}
use zai_proxy.Text.{Bytes, codes, has_suffix, trim_suffix, bytes_eq, contains}
use zai_proxy.Model.Mapping.{
  strip_tag, parse_model_name, get_target_model, is_tools_model, is_search_model,
  resolve_claude_model, is_thinking_model, claude_model_mapping, lookup,
}

-- The two base models that the table gives.
abbrev IsClaudeBase : Bytes → Type 0
IsClaudeBase b = (b ≡ codes "GLM-4.7") ⊎ (b ≡ codes "GLM-4.5-Air")

lookup_hit {κ} : (P : Bytes → Type κ) (w v : Bytes) → some w ≡ some v → P w → P v
lookup_hit P w v e h = subst P (cc) h

lookup-All {κ} :
    (P : Bytes → Type κ) (key v : Bytes) (m : List (Bytes × Bytes))
    → All (λ e. P e.1) m
    → lookup key m ≡ some v
    → P v
unfolding lookup
lookup-All P key v [] h e = absurd (cc)
lookup-All P key v ((k, w) ∷ m) h e = elim (Bool-cases (bytes_eq k key)) [
  | inl hit ↦ lookup_hit P w v (rw hit at e) h.0
  | inr miss ↦ lookup-All P key v m h.1 (rw miss at e)
]

lookup-IsClaudeBase :
    (model b : Bytes) → lookup model claude_model_mapping ≡ some b → IsClaudeBase b
lookup-IsClaudeBase model b e =
    lookup-All IsClaudeBase model b claude_model_mapping
      (
        inl refl,
        (inl refl, (inl refl, (inl refl, (inr refl, (inr refl, (inl refl, (inr refl, tt))))))),
      )
      e

-- What the rest of the program reads off a resolved name.
pub record Reads (resolved : Bytes) (thinks : Bool) : Type 0 where
  pub thinking_is : is_thinking_model resolved ≡ thinks
  pub no_search : is_search_model resolved ≡ false
  pub no_tools : is_tools_model resolved ≡ false
  pub target_known :
      (get_target_model resolved ≡ codes "glm-4.7")
      ⊎ (get_target_model resolved ≡ codes "0727-106B-API")

Reads-base :
    (b : Bytes) (thinks : Bool)
    → IsClaudeBase b
    → Reads (if thinks then b ++ codes "-thinking" else b) thinks
unfolding is_thinking_model is_search_model is_tools_model get_target_model parse_model_name
    strip_tag lookup has_suffix trim_suffix
Reads-base b true (inl e) =
    rw e (record { thinking_is = refl; no_search = refl; no_tools = refl; target_known = inl refl })
Reads-base b false (inl e) =
    rw e (record { thinking_is = refl; no_search = refl; no_tools = refl; target_known = inl refl })
Reads-base b true (inr e) =
    rw e (record { thinking_is = refl; no_search = refl; no_tools = refl; target_known = inr refl })
Reads-base b false (inr e) =
    rw e (record { thinking_is = refl; no_search = refl; no_tools = refl; target_known = inr refl })

resolve_base :
    (model : Bytes) (thinks : Bool)
    → (b : Bytes) × IsClaudeBase b
      × (resolve_claude_model model thinks ≡ (
        if contains (codes "opus") model || thinks then b ++ codes "-thinking" else b,
        contains (codes "opus") model || thinks,
      ))
unfolding resolve_claude_model
resolve_base model thinks = elim (Option-cases (lookup model claude_model_mapping)) [
  | inl missing ↦ (codes "GLM-4.7", inl refl, rw missing)
  | inr (b, found) ↦ (b, lookup-IsClaudeBase model b found, rw found)
]

-- Whatever the requested model, the name that `ResolveClaudeModel` returns reads back as a model
-- with thinking exactly as the second result says, without search and without built-in tools,
-- and its target is one of two upstream models.
pub resolve_claude_model-Reads :
    (model : Bytes) (thinks : Bool)
    → Reads (resolve_claude_model model thinks).0 (resolve_claude_model model thinks).1
resolve_claude_model-Reads model thinks =
    let (b, known, e) = resolve_base model thinks in
    rw e (Reads-base b (contains (codes "opus") model || thinks) known)
