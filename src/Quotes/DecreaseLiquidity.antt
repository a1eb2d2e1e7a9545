-- ===== src/Quotes/DecreaseLiquidity.antt =====
-- sdk/src/quotes/public/decrease-liquidity-quote.ts: the tokens that a withdrawal of liquidity gives.
-- The bounds of a price under slippage are computed on Decimal: they are a parameter.
pub mod Minimums
use solana_dex_v.Prelude.{
  ℤ, pos, leb_ℤ, eq_ℤ, min_ℤ, Bool, false, Result, ok, err, error, ◌>>=◌, ◌>>◌, invariant, throw_if,
  if◌then◌else◌,
}
use solana_dex_v.Sdk.{MathUtil, Percentage, SplToken}
use solana_dex_v.Types.{PoolData, PositionData}
use solana_dex_v.Price.PriceMath.{BnBits, tick_index_to_sqrt_price_x64}
use solana_dex_v.Ticks.TickUtil.{check_tick_in_bounds}
use solana_dex_v.Tokens.TransferFees.{TokenExtensionContext, calculate_transfer_fee_excluded_amount}
use solana_dex_v.Positions.PositionUtil.{
  PositionStatus, below_range, in_range, above_range, get_strict_position_status,
  adjust_for_slippage, get_token_a_from_liquidity, get_token_b_from_liquidity,
}

pub record DecreaseLiquidityQuoteParam (Mint : Type 0) : Type 0 where
  pub liquidity : ℤ
  pub tick_current_index : ℤ
  pub sqrt_price : ℤ
  pub tick_lower_index : ℤ
  pub tick_upper_index : ℤ
  pub token_extension_ctx : TokenExtensionContext Mint
  pub slippage_tolerance : Percentage

pub record DecreaseLiquidityQuote : Type 0 where
  pub token_min_a : ℤ
  pub token_min_b : ℤ
  pub liquidity_amount : ℤ
  pub token_est_a : ℤ
  pub token_est_b : ℤ
  pub deducted_from_token_est_a : ℤ
  pub deducted_from_token_est_b : ℤ
  pub deducted_from_token_min_a : ℤ
  pub deducted_from_token_min_b : ℤ

-- What both quotes return for no liquidity.
unfoldable pub zero_quote : DecreaseLiquidityQuote
zero_quote = record {
  token_min_a = pos 0;
  token_min_b = pos 0;
  liquidity_amount = pos 0;
  token_est_a = pos 0;
  token_est_b = pos 0;
  deducted_from_token_est_a = pos 0;
  deducted_from_token_est_b = pos 0;
  deducted_from_token_min_a = pos 0;
  deducted_from_token_min_b = pos 0;
}

-- A price and its tick.
pub record SlippageBounds : Type 0 where
  pub lower_sqrt_price : ℤ
  pub lower_tick_index : ℤ
  pub upper_sqrt_price : ℤ
  pub upper_tick_index : ℤ

module _ (math : MathUtil) (bits : BnBits) where
  -- The amounts in a position by its status, at the prices of its ends.
  unfoldable pub token_estimates : PositionStatus → ℤ → ℤ → ℤ → ℤ → Result (ℤ × ℤ)
  token_estimates below_range liquidity lower_sqrt_price upper_sqrt_price sqrt_price = do
    token_est_a ← get_token_a_from_liquidity math liquidity lower_sqrt_price upper_sqrt_price false
    ok (token_est_a, pos 0)
  token_estimates in_range liquidity lower_sqrt_price upper_sqrt_price sqrt_price = do
    token_est_a ← get_token_a_from_liquidity math liquidity sqrt_price upper_sqrt_price false
    token_est_b ← get_token_b_from_liquidity math liquidity lower_sqrt_price sqrt_price false
    ok (token_est_a, token_est_b)
  token_estimates above_range liquidity lower_sqrt_price upper_sqrt_price sqrt_price = do
    token_est_b ← get_token_b_from_liquidity math liquidity lower_sqrt_price upper_sqrt_price false
    ok (pos 0, token_est_b)

  unfoldable pub get_token_estimates_from_liquidity : ℤ → ℤ → ℤ → ℤ → Result (ℤ × ℤ)
  get_token_estimates_from_liquidity liquidity tick_lower_index tick_upper_index sqrt_price = do
    throw_if (eq_ℤ liquidity (pos 0)) error
    lower_sqrt_price ← tick_index_to_sqrt_price_x64 bits tick_lower_index
    upper_sqrt_price ← tick_index_to_sqrt_price_x64 bits tick_upper_index
    position_status ← get_strict_position_status bits sqrt_price tick_lower_index tick_upper_index
    token_estimates position_status liquidity lower_sqrt_price upper_sqrt_price sqrt_price

  module _ {Mint Config : Type 0} (spl : SplToken Mint Config) where
    -- The end of both quotes: the transfer fees of the estimates and of the minimums.
    unfoldable pub exclude_fees :
        DecreaseLiquidityQuoteParam Mint → ℤ × ℤ → ℤ → ℤ → DecreaseLiquidityQuote
    exclude_fees params token_est token_min_a token_min_b =
        let ctx = params.token_extension_ctx in
        let min_a =
          calculate_transfer_fee_excluded_amount spl token_min_a ctx.token_mint_a
            ctx.current_epoch in
        let est_a =
          calculate_transfer_fee_excluded_amount spl token_est.0 ctx.token_mint_a
            ctx.current_epoch in
        let min_b =
          calculate_transfer_fee_excluded_amount spl token_min_b ctx.token_mint_b
            ctx.current_epoch in
        let est_b =
          calculate_transfer_fee_excluded_amount spl token_est.1 ctx.token_mint_b
            ctx.current_epoch in
        record {
          token_min_a = min_a.amount;
          token_min_b = min_b.amount;
          liquidity_amount = params.liquidity;
          token_est_a = est_a.amount;
          token_est_b = est_b.amount;
          deducted_from_token_est_a = est_a.fee;
          deducted_from_token_est_b = est_b.fee;
          deducted_from_token_min_a = min_a.fee;
          deducted_from_token_min_b = min_b.fee;
        }

    unfoldable pub quote_positive : DecreaseLiquidityQuoteParam Mint → Result DecreaseLiquidityQuote
    quote_positive params = do
      token_est ←
          get_token_estimates_from_liquidity params.liquidity params.tick_lower_index
            params.tick_upper_index params.sqrt_price
      token_min_a ← adjust_for_slippage token_est.0 params.slippage_tolerance false
      token_min_b ← adjust_for_slippage token_est.1 params.slippage_tolerance false
      ok (exclude_fees params token_est token_min_a token_min_b)

    unfoldable pub decrease_liquidity_quote_by_liquidity_with_params :
        DecreaseLiquidityQuoteParam Mint → Result DecreaseLiquidityQuote
    decrease_liquidity_quote_by_liquidity_with_params params = do
      invariant (check_tick_in_bounds params.tick_lower_index)
      invariant (check_tick_in_bounds params.tick_upper_index)
      invariant (check_tick_in_bounds params.tick_current_index)
      if eq_ℤ params.liquidity (pos 0) then ok zero_quote else quote_positive params

    unfoldable pub decrease_liquidity_quote_by_liquidity :
        {Key : Type 0}
        → ℤ
        → Percentage
        → PositionData
        → PoolData Key
        → TokenExtensionContext Mint
        → Result DecreaseLiquidityQuote
    decrease_liquidity_quote_by_liquidity liquidity slippage_tolerance position whirlpool ctx = do
      invariant (leb_ℤ liquidity position.liquidity)
      decrease_liquidity_quote_by_liquidity_with_params (record {
        liquidity = liquidity;
        tick_current_index = whirlpool.tick_current_index;
        sqrt_price = whirlpool.sqrt_price;
        tick_lower_index = position.tick_lower_index;
        tick_upper_index = position.tick_upper_index;
        token_extension_ctx = ctx;
        slippage_tolerance = slippage_tolerance;
      })

    unfoldable pub quote_price_slippage :
        (ℤ → Percentage → Result SlippageBounds)
        → DecreaseLiquidityQuoteParam Mint
        → Result DecreaseLiquidityQuote
    quote_price_slippage get_slippage_bound params = do
      token_est ←
          get_token_estimates_from_liquidity params.liquidity params.tick_lower_index
            params.tick_upper_index params.sqrt_price
      bounds ← get_slippage_bound params.sqrt_price params.slippage_tolerance
      lower ←
          get_token_estimates_from_liquidity params.liquidity params.tick_lower_index
            params.tick_upper_index bounds.lower_sqrt_price
      upper ←
          get_token_estimates_from_liquidity params.liquidity params.tick_lower_index
            params.tick_upper_index bounds.upper_sqrt_price
      ok (
          exclude_fees params token_est (min_ℤ (min_ℤ token_est.0 lower.0) upper.0)
            (min_ℤ (min_ℤ token_est.1 lower.1) upper.1))

    unfoldable pub decrease_liquidity_quote_by_liquidity_with_params_using_price_slippage :
        (ℤ → Percentage → Result SlippageBounds)
        → DecreaseLiquidityQuoteParam Mint
        → Result DecreaseLiquidityQuote
    decrease_liquidity_quote_by_liquidity_with_params_using_price_slippage get_slippage_bound
          params =
        if eq_ℤ params.liquidity (pos 0)
        then ok zero_quote
        else quote_price_slippage get_slippage_bound params
