-- ===== src/Grants.antt =====
-- `ValidateGrants` of internal/edgeagent/gateway/mysql/mysql.go: the database user of an agent may only read.
pub mod Check
pub mod Fields
pub mod Parse
pub mod ReadOnly
mod Tests
