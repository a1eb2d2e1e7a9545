-- ===== src/Router.antt =====
-- The router: paths in the graph of pools, and routes that split a trade among paths.
pub mod Trades
pub mod Routes
pub mod PoolGraph
pub mod QuoteMap
pub mod BatchSwapQuote
pub mod QuoteRequests
pub mod QuoteRounds
