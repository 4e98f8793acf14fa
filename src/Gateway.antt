-- ===== src/Gateway.antt =====
-- internal/gateway: the service that the web interface and the command line call.
pub mod Service
pub mod Context
pub mod Zero
pub mod Runs
pub mod Capture
pub mod Process
pub mod Config
pub mod Metrics
pub mod Automation
pub mod Rules
pub mod Hosts
pub mod Knowledge
