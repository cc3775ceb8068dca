-- ===== src/Claude.antt =====
-- internal/agent/claude: the client of the Claude Code CLI.
pub mod Command
pub mod Parse
pub mod Describe
pub mod Quoting
pub mod Turns
pub mod Usage
pub mod Tail
pub mod Session
pub mod Resumed
