-- ===== src/Filter.antt =====
-- The filters that turn the upstream's event texts into clean output: internal/filter.
pub mod Thinking
pub mod Search
pub mod ToolCall
pub mod PromptTool
