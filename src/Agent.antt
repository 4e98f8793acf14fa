-- ===== src/Agent.antt =====
-- internal/agent/runtime.go and internal/agent/memory.go: what a turn of the agent does with the
-- tool calls of a response, and how it bounds its texts and its history.
pub mod Truncate
pub mod Plan
pub mod Memory
pub mod Settings
pub mod Stream
