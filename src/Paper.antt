-- ===== src/Paper.antt =====
-- The paper exchange (src/aiquanttrader/paper/simulator.py).
pub mod Account
pub mod Orders
pub mod Exchange
pub mod Matching
pub mod Loops
pub mod Snapshot
pub mod Evolution
pub mod Life
pub mod History
pub mod Fills
pub mod Taker
pub mod Turns
pub mod Trades
mod Positive
pub mod Session
mod Tests
