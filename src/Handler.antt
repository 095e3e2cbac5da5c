-- ===== src/Handler.antt =====
-- The request handlers: internal/handler.
pub mod Turn
pub mod AutoLoop
pub mod OpenaiTurn
pub mod AnthropicTurn
pub mod Cors
pub mod Stats
pub mod Events
pub mod Collect
pub mod AnthropicStream
pub mod ChatStream
pub mod Convert
