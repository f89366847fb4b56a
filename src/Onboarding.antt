-- ===== src/Onboarding.antt =====
-- internal/controlplane/controller/onboarding.go: the steps by which a tenant's owner installs the
-- agent, connects the database and approves the semantic layer.
pub mod Types
pub mod Texts
pub mod Messages
pub mod Store
pub mod Handlers
pub mod Steps
pub mod Progress
pub mod Advances
pub mod Rules
pub mod Requests
pub mod Parts
pub mod Preservation
pub mod Invariant
pub mod Trim
pub mod Quoting
pub mod Slugs
pub mod Completion
pub mod Journey
pub mod Connecting
pub mod Liveness
pub mod Access
pub mod Order
mod Tests
