-- ===== src/Llm.antt =====
-- internal/controlplane/gateway/llm: the errors, the circuit breaker and the router.
pub mod Errors
pub mod Breaker
pub mod Request
pub mod Router
mod Tests
