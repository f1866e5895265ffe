-- ===== src/MarketData.antt =====
-- application/market_data: the choice between providers, and the quality of what they deliver.
pub mod Fallback
pub mod Quality
mod Tests
