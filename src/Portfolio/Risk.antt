-- ===== src/Portfolio/Risk.antt =====
-- application/portfolio/risk.py: the deterministic risk gateway. Time spans are integers of
-- microseconds.
pub mod Inputs
pub mod Decision
pub mod Gateway
pub mod Limits
pub mod Valid
pub mod Gate
pub mod Fits
pub mod Total
pub mod Tests
