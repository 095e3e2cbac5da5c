-- ===== src/Tools.antt =====
-- The tools that the proxy adds and runs: internal/tools.
pub mod Resolution
pub mod ExecCommand
