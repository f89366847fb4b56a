-- ===== src/Tokens.antt =====
-- The tokens of agents: internal/controlplane/controller/tenant.go, internal/controlplane/repository/
-- tenant_token.go, internal/controlplane/auth/auth.go and internal/controlplane/auth/agent.go.
pub mod Store
pub mod Issue
pub mod Bearer
pub mod Authority
pub mod Access
pub mod Lifecycle
mod Tests
