-- ===== src/Domain.antt =====
-- backend/src/stock_platform/domain/common: symbols, aware timestamps and money.
pub mod Ids
pub mod Time
pub mod Money
pub mod Tests
