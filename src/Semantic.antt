-- ===== src/Semantic.antt =====
-- internal/controlplane/controller/semantic_layer.go and internal/controlplane/repository/
-- semantic_layer.go: the descriptions of a tenant's schema, drafted, edited and approved.
pub mod Types
pub mod Content
pub mod Structure
pub mod Editing
pub mod Layers
pub mod Unique
pub mod Approval
pub mod Methods
pub mod Requests
pub mod Changes
pub mod Descriptions
pub mod Updated
pub mod Outcomes
mod Tests
