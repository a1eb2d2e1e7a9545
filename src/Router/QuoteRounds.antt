-- ===== src/Router/QuoteRounds.antt =====
-- sdk/src/router/quote-map.ts: the rounds of quotes, one hop of every path at a time.
pub mod Chained
pub mod Rounds
use solana_dex_v.Prelude.{
  ℕ, zero, suc, ◌+◌, max, ltb, leb, ◌==◌, ℤ, pos, Text, Bool, Option, none, some, List, [], ◌∷◌,
  ◌++◌, map, length, get_elem?, set, replicate, Result, ok, err, ErrorCode, type_error,
  multiplication_overflow, mul_div_overflow, multiplication_shift_right_overflow, divide_by_zero,
  token_max_exceeded, token_min_subceeded, invalid_dev_fee_percentage,
  invalid_sqrt_price_limit_direction, sqrt_price_out_of_bounds, zero_tradable_amount,
  amount_out_below_minimum, amount_in_above_maximum, tick_array_crossing_above_max,
  tick_array_index_not_initialized, tick_array_sequence_invalid, error, invariant_failed,
  assertion_failed, out_of_fuel, ◌>>=◌, if◌then◌else◌,
}
use solana_dex_v.Sdk.{MathUtil, Percentage, SplToken}
use solana_dex_v.Types.{PoolData}
use solana_dex_v.Price.PriceMath.{BnBits}
use solana_dex_v.Ticks.TickArraySequence.{or_type_error}
use solana_dex_v.Swap.SwapQuote.{SwapQuoteParam, SwapQuote}
use solana_dex_v.Swap.SlippageQuote.{SwapAmounts, swap_quote_with_params}
use solana_dex_v.Router.Trades.{Edge, TradePath, TradeHop, Trade, RoutingOptions}
use solana_dex_v.Router.BatchSwapQuote.{SwapQuoteRequest}
use solana_dex_v.Router.QuoteMap.{
  FailureCode, TradeHopQuoteResult, success, failure, InternalPathQuote, InternalQuoteMap,
  get_split_percentage_amts, sanitize_quote_map,
}
use solana_dex_v.Router.Routes.{SanitizedQuoteMap}
use solana_dex_v.Router.QuoteRequests.{
  QuoteRequest, PathQuotes, quote_at, put_quote, build_quote_update_requests,
}

-- The number of rounds: the hops of the longest path.
unfoldable pub max_route_length : List TradePath → ℕ
max_route_length [] = 0
max_route_length (path ∷ paths) = max (length path.edges) (max_route_length paths)

-- `PoolUtil.getFeeRate`: millionths.
unfoldable pub get_fee_rate : ℕ → Percentage
get_fee_rate fee_rate = record { numerator = pos fee_rate; denominator = pos 1000000 }

abbrev pub no_slippage : Percentage
no_slippage = record { numerator = pos 0; denominator = pos 1000 }

unfoldable pub with_hop : InternalPathQuote → ℕ → TradeHopQuoteResult → InternalPathQuote
with_hop quote edge_index result = record {
  path = quote.path;
  edges_pool_addrs = quote.edges_pool_addrs;
  split_percent = quote.split_percent;
  calculated_edge_quotes = set quote.calculated_edge_quotes edge_index (some result);
}

-- `e.errorCode` of what was caught: only the program's own errors have one. Running out of fuel is no
-- error of the code.
unfoldable pub code_of : ErrorCode → FailureCode
code_of multiplication_overflow = some multiplication_overflow
code_of mul_div_overflow = some mul_div_overflow
code_of multiplication_shift_right_overflow = some multiplication_shift_right_overflow
code_of divide_by_zero = some divide_by_zero
code_of token_max_exceeded = some token_max_exceeded
code_of token_min_subceeded = some token_min_subceeded
code_of invalid_dev_fee_percentage = some invalid_dev_fee_percentage
code_of invalid_sqrt_price_limit_direction = some invalid_sqrt_price_limit_direction
code_of sqrt_price_out_of_bounds = some sqrt_price_out_of_bounds
code_of zero_tradable_amount = some zero_tradable_amount
code_of amount_out_below_minimum = some amount_out_below_minimum
code_of amount_in_above_maximum = some amount_in_above_maximum
code_of tick_array_crossing_above_max = some tick_array_crossing_above_max
code_of tick_array_index_not_initialized = some tick_array_index_not_initialized
code_of tick_array_sequence_invalid = some tick_array_sequence_invalid
code_of error = none
code_of invariant_failed = none
code_of assertion_failed = none
code_of type_error = none
code_of out_of_fuel = none

module _ {Mint : Type 0} where
  -- The quote of a hop that succeeded, as the path keeps it.
  unfoldable pub hop_of :
      SwapQuoteParam Text Mint → SwapQuoteRequest Text → SwapQuote Text → TradeHop
  hop_of swap_param request quote =
      let pool = swap_param.whirlpool_data in
      record {
        amount_in =
            if swap_param.amount_specified_is_input
            then swap_param.token_amount
            else quote.estimated_amount_in;
        amount_out =
            if swap_param.amount_specified_is_input
            then quote.estimated_amount_out
            else swap_param.token_amount;
        whirlpool = request.whirlpool;
        input_mint = if swap_param.a_to_b then pool.token_mint_a else pool.token_mint_b;
        output_mint = if swap_param.a_to_b then pool.token_mint_b else pool.token_mint_a;
        mint_a = pool.token_mint_a;
        mint_b = pool.token_mint_b;
        vault_a = pool.token_vault_a;
        vault_b = pool.token_vault_b;
        quote = quote;
        snapshot = record {
          a_to_b = swap_param.a_to_b;
          sqrt_price = pool.sqrt_price;
          fee_rate = get_fee_rate pool.fee_rate;
        };
      }

  -- `catch (e)`: the code of the error is kept if it has one, and nothing is thrown.
  unfoldable pub hop_result :
      SwapQuoteParam Text Mint
      → SwapQuoteRequest Text
      → Result (SwapQuote Text × SwapAmounts)
      → TradeHopQuoteResult
  hop_result swap_param request (err code) = failure (code_of code)
  hop_result swap_param request (ok (quote, amounts)) = success (hop_of swap_param request quote)

module _ {Mint Config : Type 0} (math : MathUtil) (bits : BnBits) (spl : SplToken Mint Config)
    (fuel : ℕ) where
  -- Without parameters, reading their pool throws inside the `try`.
  unfoldable pub quote_hop :
      Option (SwapQuoteParam Text Mint) → SwapQuoteRequest Text → TradeHopQuoteResult
  quote_hop none request = failure (code_of type_error)
  quote_hop (some swap_param) request =
      hop_result swap_param request
        (swap_quote_with_params math bits spl fuel swap_param no_slippage)

  unfoldable pub populate_quote_map :
      List QuoteRequest
      → List (SwapQuoteParam Text Mint)
      → InternalQuoteMap
      → Result InternalQuoteMap
  populate_quote_map [] quote_params quote_map = ok quote_map
  populate_quote_map (update ∷ quote_updates) quote_params quote_map = do
    path ← quote_at quote_map update.split_percent update.path_index
    let result = quote_hop (get_elem? quote_params update.quote_index) update.request
    next ←
        put_quote quote_map update.split_percent update.path_index
          (with_hop path update.edge_index result)
    populate_quote_map quote_updates quote_params next

  -- `batch` is batchBuildSwapQuoteParams on the accounts of the fetcher.
  module _ (batch : List (SwapQuoteRequest Text) → Result (List (SwapQuoteParam Text Mint)))
      (trade : Trade) (paths : List TradePath) (amounts : List (ℕ × ℤ)) where
    unfoldable pub quote_round : ℕ → InternalQuoteMap → Result InternalQuoteMap
    quote_round hop quote_map = do
      built ←
          build_quote_update_requests trade.token_in trade.token_out hop
            trade.amount_specified_is_input paths amounts quote_map
      quote_params ← batch (map (λ (update : QuoteRequest). update.request) built.1)
      populate_quote_map built.1 quote_params built.0

    -- The rounds of an exact input: n of them, from the given hop on.
    unfoldable pub rounds_up : ℕ → ℕ → InternalQuoteMap → Result InternalQuoteMap
    rounds_up zero hop quote_map = ok quote_map
    rounds_up (suc n) hop quote_map = do
      next ← quote_round hop quote_map
      rounds_up n (hop + 1) next

    -- The rounds of an exact output: the hops below n, the last first.
    unfoldable pub rounds_down : ℕ → InternalQuoteMap → Result InternalQuoteMap
    rounds_down zero quote_map = ok quote_map
    rounds_down (suc n) quote_map = do next ← quote_round n quote_map; rounds_down n next

  unfoldable pub get_quote_map :
      (List (SwapQuoteRequest Text) → Result (List (SwapQuoteParam Text Mint)))
      → Trade
      → List TradePath
      → RoutingOptions
      → Result (SanitizedQuoteMap × List FailureCode)
  get_quote_map batch trade paths opts = do
    amounts ← get_split_percentage_amts trade.trade_amount opts.percent_increment
    let n = max_route_length paths
    quote_map ←
        if trade.amount_specified_is_input
        then rounds_up batch trade paths amounts n 0 []
        else rounds_down batch trade paths amounts n []
    sanitize_quote_map quote_map opts.num_top_partial_quotes trade.amount_specified_is_input
