-- ===== src/Math.antt =====
-- sdk/src/utils/math: the arithmetic of quotes.
pub mod BitMath
pub mod Bounds
pub mod TokenMath
pub mod SwapMath
