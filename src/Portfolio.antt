-- ===== src/Portfolio.antt =====
-- backend/src/stock_platform/{domain,application}/portfolio: orders, fills, the ledger, positions,
-- the risk gateway, execution and accounting.
pub mod Order
pub mod Fill
pub mod Ledger
pub mod Position
pub mod Nav
pub mod Valuation
pub mod Risk
pub mod Execution
pub mod Accounting
pub mod Allocation
pub mod CorporateActions
pub mod Tests
