-- ===== src/Price.antt =====
-- The prices of ticks (sdk/src/utils/public/price-math.ts).
pub mod PriceMath
