-- ===== src/Lib.antt =====
-- The quotes of the Whirlpools SDK (sdk/src of the repository): what a swap, a position or a
-- transfer fee amounts to, computed off chain on the accounts of the program. The development
-- models the pure core of the SDK and proves what a caller relies on.
--
-- The parts, and the files that model them:
--   Prelude       shared names, tests and lemmas; signed integers over the native numbers; the
--                 error codes of sdk/src/errors/errors.ts and results as values.
--   Bn, Sdk       what is called of bn.js, @orca-so/common-sdk and @solana/spl-token. bn.js is
--                 integer arithmetic with its failed assertions; the functions of the other two
--                 packages are parameters, records of functions with their documented behaviour.
--   Types         constants and accounts (sdk/src/types/public).
--   Math          sdk/src/utils/math: BitMath (bit-math.ts), TokenMath (token-math.ts) and
--                 SwapMath (swap-math.ts), one step of a swap at constant liquidity.
--   Ticks         TickUtil (sdk/src/utils/public/tick-utils.ts), TickArrayIndex and
--                 TickArraySequence (sdk/src/quotes/swap/tick-array-index.ts and
--                 tick-array-sequence.ts): the grid of ticks, and the search along the arrays.
--   Price         PriceMath (sdk/src/utils/public/price-math.ts): ticks and prices.
--   Swap          SwapManager (sdk/src/quotes/swap/swap-manager.ts), the loop of a swap, and
--                 SwapQuote (swap-quote-impl.ts), the quote around it with its guards, and
--                 SlippageQuote (swapQuoteWithParams), the threshold under a slippage; SwapUtils
--                 (sdk/src/utils/public/swap-utils.ts), the direction, the default limits and the
--                 tick arrays of a swap; TokenQuote (swapQuoteByInputToken and swapQuoteByOutputToken)
--                 and DevFeeQuote (dev-fee-swap-quote.ts), the quotes of a swap of a pool's token.
--   Tokens        TransferFees (sdk/src/utils/public/token-extension-util.ts).
--   Positions     PositionBundle (position-bundle-util.ts) and PositionUtil
--                 (sdk/src/utils/position-util.ts and swap-utils.ts).
--   Quotes        CollectFees, CollectRewards, DecreaseLiquidity and IncreaseLiquidity
--                 (sdk/src/quotes/public).
--   Router        PoolGraph (sdk/src/utils/graphs/adjacency-list-pool-graph.ts), the paths of one or two
--                 pools between two tokens; Routes (sdk/src/router/convert-quote-map.ts), the routes
--                 that split a trade among quoted paths; QuoteMap (sdk/src/router/quote-map.ts), the
--                 parts of a trade and the cleaned quotes of its paths; BatchSwapQuote
--                 (sdk/src/router/batch-swap-quote.ts), the parameters of many quotes;
--                 QuoteRequests and QuoteRounds (quote-map.ts), the requests of a round and their
--                 quotes, one hop of every path at a time; Trades, their types.
--   Examples      concrete packages, a whole swap run on them, and the theorems applied.
--
-- simulateSwap checks its parameters, builds a TickArraySequence, takes the transfer fee off (or
-- adds it), and calls computeSwap. That loop asks the sequence for the next initialized tick,
-- PriceMath for its price, and SwapMath for a step to it; a step that reaches the tick changes the
-- liquidity. The sequence is the only object with state: it is passed on explicitly.
--
-- A definition has the name of the function it models, in snake case; an exception is an error
-- value; null and undefined are Option or type_error. Amounts and prices (BN) and ticks (numbers) are
-- integers; tick spacings, rates, sizes and positions in lists are natural numbers. JavaScript
-- numbers are taken as exact, which they are at the magnitudes of ticks.
--
-- Loops run on fuel. The search in one array has one unit more than the array has ticks, and the
-- search along a sequence 88 units for each array and one more: both are proved to be enough. The
-- fuel of the loop of a swap is an argument: with too little it gives the error out_of_fuel, which is
-- not one of the code's, and no bound on it is claimed. The search for routes has one unit more than
-- there are quotes, which is proved to be enough for a map that keeps every quote under its own
-- percent and for a positive limit on the splits.
--
-- Not modelled: what fetches accounts or builds transactions (sdk/src/network, impl, instructions,
-- prices and the client of the router), the ranking of the routes, the functions on Decimal, the generated interface (sdk/src/artifacts),
-- the two-hop quote, and the on-chain program (programs/dex).
pub mod Prelude
pub mod Bn
pub mod Sdk
pub mod Types
pub mod Math
pub mod Ticks
pub mod Price
pub mod Tokens
pub mod Positions
pub mod Swap
pub mod Router
pub mod Quotes
pub mod Examples
