-- ===== src/Journal.antt =====
-- The durable execution journal (src/aiquanttrader/execution/journal.py).
pub mod States
pub mod Table
pub mod Store
pub mod Lifecycle
pub mod Stale
pub mod History
pub mod Complete
mod Tests
