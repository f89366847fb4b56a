-- ===== src/Sessions.antt =====
-- internal/controlplane/controller/agent.go: the sessions of the edge agents, the commands that are
-- sent to them and the callers that wait for the results.
pub mod Types
pub mod Store
pub mod Manager
pub mod Commands
pub mod Results
pub mod Listing
pub mod Valid
pub mod Preservation
pub mod Issuing
pub mod Registering
pub mod Reachable
pub mod Delivery
pub mod Selection
pub mod Takeover
pub mod Exchange
pub mod Authority
pub mod Rejection
pub mod Ordering
mod Tests
