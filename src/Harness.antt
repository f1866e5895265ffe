-- ===== src/Harness.antt =====
-- backend/src/stock_platform/agents/harness: the execution controller's budgets and the approval gateway.
pub mod Controller
pub mod Budget
pub mod Approval
pub mod Task
pub mod Tests
