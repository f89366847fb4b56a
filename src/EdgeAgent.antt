-- ===== src/EdgeAgent.antt =====
-- internal/edgeagent/controller/agent.go: the agent beside the tenant's database, which runs the
-- control plane's commands and reconnects when its stream ends.
pub mod Types
pub mod Commands
pub mod Reconnect
pub mod Backoff
pub mod Reports
mod Tests
