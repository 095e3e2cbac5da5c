-- ===== src/Tests.antt =====
-- The theorems at concrete inputs.
mod Parsers
mod Models
mod Filters
mod Limits
mod Turns
mod Commands
mod Searches
mod Access
mod Streams
mod Conversions
mod Settings
