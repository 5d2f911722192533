-- ===== src/Governance.antt =====
-- Who may put a strategy into production, and the ledger of admitted deployments
-- (src/aiquanttrader/domain/governance.py and src/aiquanttrader/governance).
pub mod Promotion
pub mod Models
pub mod Ledger
mod Tests
