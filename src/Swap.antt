-- ===== src/Swap.antt =====
-- Swaps: the loop over the ticks that a swap crosses, and the quote around it.
pub mod SwapManager
pub mod SwapQuote
pub mod SlippageQuote
pub mod SwapUtils
pub mod TokenQuote
pub mod DevFeeQuote
