-- ===== src/Lib.antt =====
-- zai-proxy: models and proofs
--
-- zai-proxy offers the OpenAI and Anthropic chat interfaces in front of the z.ai web chat. A handler
-- (internal/handler) reads a request, resolves the model's name and the tools (internal/model,
-- internal/tools), asks the upstream (internal/upstream, internal/auth), cleans the events that come
-- back (internal/filter) and writes one response or a stream. This development models the parts
-- below; a function of the source `fooBar` is `foo_bar` here, and a method takes and returns its
-- receiver.
--
--   Base, Text      native numbers, lists; Go's `strings` functions on bytes
--   Model           internal/model: JSON values, structs, model names (mapping.go)
--   Filter          internal/filter: the thinking filter (thinking.go), the search filter with the
--                   parsers of search results (search.go), the parsers of calls (toolcall.go) and
--                   of calls in text (prompttool.go)
--   Middleware      internal/middleware/ratelimit.go: the token bucket and the key of a request
--   Tools           internal/tools: the tools offered to the model (resolution.go), and the command
--                   tool (exec_command.go): splitting, checks, runs, captured output
--   Config          internal/config/config.go: the configuration once it is read
--   Auth            internal/auth/anonymous.go: the cached token
--   Handler         internal/handler: the reading of the upstream's lines (Events), the turn that is
--                   collected from them and the answers without streaming (Collect, for
--                   assistant_turn.go, chat.go, anthropic.go), the stream of handleAnthropicStream
--                   (AnthropicStream) and that of handleStreamResponse of chat.go (ChatStream), the
--                   conversion of Anthropic requests (Convert, for anthropic.go), the automatic tool
--                   loop and the writers (assistant_turn.go), the origin checks (middleware.go) and
--                   the counters (stats.go)
--   Tests           the theorems at concrete inputs, and evaluations
--
-- Bounds and fuel. The loop of ParseModelName runs on the length of the name, which is enough, since
-- each round shortens the name; the sort of the sources runs on their number, one for each round of
-- its outer loop; the digits of a number run on the number; the automatic tool loop and the search
-- for a suffix to hold back run on their own bounds, 5 and 20; the recursion of parseToolCallJSON,
-- the loop that squeezes newlines and the loop on text with calls run on the length of the text. Numbers are natural numbers where the
-- source's are never negative; a requested timeout, an index, an exit code, a count of brackets and
-- the arguments of NewRateLimiter may be, and are integers. The settings of the command tool are
-- those that the configuration has sanitized.
--
-- What stands outside: the network, the tools' effects, the operating system with its paths, the
-- tables of upper and lower case, the reading of JSON, whether a text is JSON, and random identifiers
-- are parameters. HTTP, the writing of JSON (but for the inputs that cannot be written in
-- writeAnthropicNonStreamTurn), logging and the rounding of float64 are left out. A stream is
-- the list of its lines. Not modelled: the dispatch of requests, the upstream client, the calculator,
-- and the file and the environment that the configuration is read from. codex-proxy-master is another project's copy.
mod Base
pub mod Text
pub mod Model
pub mod Filter
pub mod Middleware
pub mod Tools
pub mod Auth
pub mod Config
pub mod Handler
mod Tests
