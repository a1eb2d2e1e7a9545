-- ===== src/Quotes.antt =====
-- The quotes on what a position is owed, and on what it gives when liquidity is taken out.
pub mod CollectFees
pub mod CollectRewards
pub mod DecreaseLiquidity
pub mod IncreaseLiquidity
