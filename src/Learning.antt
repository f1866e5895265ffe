-- ===== src/Learning.antt =====
-- application/learning and domain/learning: outcomes of decisions, lessons, and policy promotion.
pub mod Policy
pub mod Repository
pub mod Postgres
pub mod Outcome
pub mod Lesson
mod Tests
