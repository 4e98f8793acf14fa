-- ===== src/Policy.antt =====
-- internal/policy/engine.go.
pub mod Segments
pub mod Words
pub mod Redirect
pub mod Commands
pub mod Rules
pub mod Assess
pub mod Engine
