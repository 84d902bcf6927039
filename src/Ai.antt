-- ===== src/Ai.antt =====
-- src/apps/ai: the third stage of the classification, which asks external providers.
pub mod World
pub mod Provider
pub mod Router
pub mod CostLimit
pub mod Attempt
pub mod Classify
pub mod Induction
pub mod Masking
pub mod Budget
pub mod Limits
pub mod CircuitBreaker
mod Tests
