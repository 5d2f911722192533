-- ===== src/Risk.antt =====
-- The pre-trade risk authority and the operator kill switch (src/aiquanttrader/risk), with the
-- order and risk contracts that they exchange (src/aiquanttrader/domain/execution.py).
pub mod Domain
pub mod KillSwitch
pub mod Assess
pub mod Evaluate
pub mod Consume
mod Tests
