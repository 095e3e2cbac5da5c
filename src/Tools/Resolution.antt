-- ===== src/Tools/Resolution.antt =====
-- internal/tools/resolution.go: the tools that are offered to the model, and which of them the
-- proxy added. `GetBuiltinTools` reads the configuration; its list is the argument `builtins`.
pub mod Laws
use zai_proxy.Base.{◌+◌, Bool, true, false, ◌||◌, List, [], ◌∷◌, ◌++◌, map, if◌then◌else◌}
use zai_proxy.Text.{Bytes, bytes_eq}
use zai_proxy.Model.Types.{Tool, ToolFunction}
use zai_proxy.Model.Mapping.{is_tools_model}

-- A set of names, `map[string]struct{}`, as the list of its insertions.
unfoldable pub member : Bytes → List Bytes → Bool
unfolding bytes_eq
member name [] = false
member name (n ∷ ns) = bytes_eq n name || member name ns

pub record EffectiveTools : Type 0 where
  pub tools : List Tool
  pub injected_builtin_names : List Bytes

abbrev pub tool_name : Tool → Bytes
tool_name t = t.function.name

-- The loop over the built-in tools, on the tools and the names collected so far.
unfoldable pub inject : List Bytes → List Tool → EffectiveTools → EffectiveTools
inject client_names [] e = e
inject client_names (b ∷ bs) e = inject client_names bs (
    if member (tool_name b) client_names then e else record {
      tools = e.tools ++ b ∷ [];
      injected_builtin_names = e.injected_builtin_names ++ tool_name b ∷ [];
    })

unfoldable pub resolve_effective_tools : List Tool → Bytes → List Tool → EffectiveTools
unfolding inject
resolve_effective_tools builtins model_name client_tools =
    let start : EffectiveTools = record { tools = client_tools; injected_builtin_names = [] } in
    if is_tools_model model_name then inject (map tool_name client_tools) builtins start else start

abbrev pub has_injected_builtins : EffectiveTools → Bool
has_injected_builtins e = elim e.injected_builtin_names [ [] ↦ false | _ ∷ _ ↦ true ]
