-- ===== src/Tools/ExecCommand.antt =====
-- internal/tools/exec_command.go: commands that the model may run on the proxy's machine.
pub mod Split
pub mod Grammar
pub mod Argv
pub mod Output
pub mod Run
pub mod Allowed
pub mod Launched
pub mod Answers
