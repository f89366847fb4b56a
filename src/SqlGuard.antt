-- ===== src/SqlGuard.antt =====
-- internal/sqlguard: the layer between SQL that a language model wrote and the database.
pub mod Ast
pub mod Result
pub mod Scan
pub mod Visitor
pub mod Kinds
pub mod Limit
pub mod Validate
mod Tests
