-- ===== src/Governance/Ledger.antt =====
-- The admission ledger (src/aiquanttrader/governance/ledger.py).
pub mod Tables
pub mod Admit
pub mod Renew
pub mod Guard
pub mod Rows
pub mod Updates
pub mod Invariant
pub mod Changes
pub mod Effects
pub mod History
pub mod Replay
mod Tests
