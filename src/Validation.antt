-- ===== src/Validation.antt =====
-- Walk-forward validation (src/aiquanttrader/backtest/validation.py).
pub mod Plan
pub mod Folds
pub mod Leakage
pub mod Selection
pub mod Best
mod Tests
