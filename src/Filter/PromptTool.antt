-- ===== src/Filter/PromptTool.antt =====
-- internal/filter/prompttool.go: calls that the model writes into its answer. Reading JSON and
-- quoting a text (`%q`) are parameters.
pub mod Patterns
pub mod Braces
pub mod Tags
pub mod Extract
pub mod Squeeze
