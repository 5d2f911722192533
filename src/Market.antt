-- ===== src/Market.antt =====
-- The market events of domain/market.py, their assembly into the states that the paper exchange
-- matches on (paper/market.py), and the checks on recorded data (market_data/).
pub mod Domain
mod Sorted
pub mod Assembler
pub mod Integrity
pub mod Admission
