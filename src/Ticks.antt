-- ===== src/Ticks.antt =====
-- The grid of ticks: single ticks, tick arrays and the sequence of arrays that a swap may cross.
pub mod TickUtil
pub mod TickArrayIndex
pub mod TickArraySequence
