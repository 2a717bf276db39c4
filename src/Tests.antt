-- ===== src/Tests.antt =====
-- Runs on concrete inputs: the modelled functions of the parser, the runtime, the configuration and
-- the command, and the theorems about them.
mod Runtime
mod Parser
mod Config
mod Command
mod Naming
mod Files
mod Settings
mod Scanning
mod Making
