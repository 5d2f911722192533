-- ===== src/Sentinel.antt =====
-- The safety sentinel (src/aiquanttrader/sentinel/service.py).
pub mod Watch
pub mod Step
pub mod Safety
pub mod Retry
mod Tests
