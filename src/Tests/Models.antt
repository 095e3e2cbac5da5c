-- ===== src/Tests/Models.antt =====
-- Model names and tools at concrete inputs.
use zai_proxy.Base.{◌≡◌, refl, true, false, [], ◌∷◌}
use zai_proxy.Text.{codes, has_suffix}
use zai_proxy.Model.Mapping.{parse_model_name, resolve_claude_model}
use zai_proxy.Model.Mapping.Tags.{
  thinking, tools, IsBare, parse_model_name-tagged, parse_model_name-IsBare,
}
use zai_proxy.Model.Mapping.Claude.{Reads, resolve_claude_model-Reads}

glm-IsBare : IsBare (codes "GLM-4.7")
unfolding has_suffix
glm-IsBare = record { not_thinking = refl; not_search = refl; not_tools = refl }

parse_model_name-tagged_example : parse_model_name (codes "GLM-4.7-tools-thinking") ≡ record {
  base_model = codes "GLM-4.7";
  enable_thinking = true;
  enable_search = false;
  enable_tools = true;
}
parse_model_name-tagged_example =
    parse_model_name-tagged (codes "GLM-4.7") (thinking ∷ tools ∷ []) glm-IsBare

parse_model_name-IsBare_example :
    IsBare (parse_model_name (codes "GLM-4.6-search-search")).base_model
parse_model_name-IsBare_example = parse_model_name-IsBare (codes "GLM-4.6-search-search")

resolve_claude_model-Reads_example :
    Reads
      (resolve_claude_model (codes "claude-opus-4-6") false).0
      (resolve_claude_model (codes "claude-opus-4-6") false).1
resolve_claude_model-Reads_example = resolve_claude_model-Reads (codes "claude-opus-4-6") false

resolve_opus :
    resolve_claude_model (codes "claude-opus-4-6") false ≡ (codes "GLM-4.7-thinking", true)
unfolding resolve_claude_model
resolve_opus = refl
