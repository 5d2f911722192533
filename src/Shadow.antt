-- ===== src/Shadow.antt =====
-- The shadow service (src/aiquanttrader/shadow).
pub mod Ingress
