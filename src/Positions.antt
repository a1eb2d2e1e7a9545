-- ===== src/Positions.antt =====
-- Positions: their bundles, their status, and their liquidity in tokens.
pub mod PositionBundle
pub mod PositionUtil
