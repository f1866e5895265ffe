-- ===== src/Alerting.antt =====
-- application/alerting: the rules of an alert, and the delivery of its notifications.
pub mod Outbox
pub mod Features
pub mod Rules
mod Tests
