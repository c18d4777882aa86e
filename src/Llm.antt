-- ===== src/Llm.antt =====
-- packages/llm/src: the choice of a model and the circuit breaker.
pub mod Breaker
pub mod Refs
pub mod Router
mod Tests
