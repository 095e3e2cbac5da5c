-- ===== src/Handler/AnthropicStream.antt =====
-- `handleAnthropicStream` of internal/handler/anthropic.go. What it sends depends on the events of
-- the upstream, and how it is sent on the blocks that are open; nothing that it reads depends on the
-- open blocks. So an event gives emissions, in order, and the children send them: Blocks models the
-- handling of blocks, Prompt the inner loop on text with calls, Shared the steps that chat.go
-- repeats, Events the loop on the lines.
pub mod Blocks
pub mod Prompt
pub mod Shared
pub mod Events
pub mod Protocol
pub mod Steps
pub mod Agreement
pub mod Refusal
pub mod Rounds
