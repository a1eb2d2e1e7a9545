-- ===== src/Quotes/IncreaseLiquidity.antt =====
-- sdk/src/quotes/public/increase-liquidity-quote.ts: what a deposit costs, and the liquidity it buys.
-- The bounds of a price under slippage are computed on Decimal: they are a parameter.
pub mod InputToken
pub mod Deposits
pub mod Quoted
use solana_dex_v.Prelude.{
  ℕ, ℤ, pos, ltb_ℤ, eq_ℤ, max_ℤ, Bool, true, false, not, ◌||◌, Result, ok, err, error, ◌>>=◌, ◌>>◌,
  invariant, throw_if, if◌then◌else◌,
}
use solana_dex_v.Sdk.{MathUtil, Percentage, SplToken}
use solana_dex_v.Types.{PoolData}
use solana_dex_v.Price.PriceMath.{BnBits, tick_index_to_sqrt_price_x64}
use solana_dex_v.Ticks.TickUtil.{check_tick_in_bounds, get_initializable_tick_index}
use solana_dex_v.Tokens.TransferFees.{
  TokenExtensionContext, TransferFeeAmount, amount_and_fee, calculate_transfer_fee_included_amount,
  calculate_transfer_fee_excluded_amount,
}
use solana_dex_v.Positions.PositionUtil.{
  PositionStatus, below_range, in_range, above_range, get_strict_position_status,
  adjust_for_slippage, get_liquidity_from_token_a, get_liquidity_from_token_b,
  get_token_a_from_liquidity, get_token_b_from_liquidity,
}
use solana_dex_v.Quotes.DecreaseLiquidity.{SlippageBounds}

pub record IncreaseLiquidityQuoteParam (Key Mint : Type 0) : Type 0 where
  pub input_token_amount : ℤ
  pub input_token_mint : Key
  pub token_mint_a : Key
  pub token_mint_b : Key
  pub token_extension_ctx : TokenExtensionContext Mint
  pub tick_current_index : ℤ
  pub sqrt_price : ℤ
  pub tick_lower_index : ℤ
  pub tick_upper_index : ℤ
  pub slippage_tolerance : Percentage

pub record IncreaseLiquidityQuoteByLiquidityParam (Mint : Type 0) : Type 0 where
  pub liquidity : ℤ
  pub tick_current_index : ℤ
  pub sqrt_price : ℤ
  pub tick_lower_index : ℤ
  pub tick_upper_index : ℤ
  pub token_extension_ctx : TokenExtensionContext Mint
  pub slippage_tolerance : Percentage

pub record IncreaseLiquidityQuote : Type 0 where
  pub liquidity_amount : ℤ
  pub token_max_a : ℤ
  pub token_max_b : ℤ
  pub token_est_a : ℤ
  pub token_est_b : ℤ
  pub deducting_from_token_max_a : ℤ
  pub deducting_from_token_max_b : ℤ
  pub deducting_from_token_est_a : ℤ
  pub deducting_from_token_est_b : ℤ

-- A quote from the four amounts with their transfer fees.
abbrev pub quote_of :
    ℤ
    → TransferFeeAmount
    → TransferFeeAmount
    → TransferFeeAmount
    → TransferFeeAmount
    → IncreaseLiquidityQuote
quote_of liquidity max_a est_a max_b est_b = record {
  liquidity_amount = liquidity;
  token_max_a = max_a.amount;
  token_max_b = max_b.amount;
  token_est_a = est_a.amount;
  token_est_b = est_b.amount;
  deducting_from_token_max_a = max_a.fee;
  deducting_from_token_max_b = max_b.fee;
  deducting_from_token_est_a = est_a.fee;
  deducting_from_token_est_b = est_b.fee;
}

-- An amount that is not asked for.
abbrev pub no_amount : TransferFeeAmount
no_amount = amount_and_fee (pos 0) (pos 0)

abbrev pub empty_quote : IncreaseLiquidityQuote
empty_quote = quote_of (pos 0) no_amount no_amount no_amount no_amount

module _ (math : MathUtil) (bits : BnBits) where
  unfoldable pub token_estimates : PositionStatus → ℤ → ℤ → ℤ → ℤ → Result (ℤ × ℤ)
  token_estimates below_range liquidity lower_sqrt_price upper_sqrt_price sqrt_price = do
    token_est_a ← get_token_a_from_liquidity math liquidity lower_sqrt_price upper_sqrt_price true
    ok (token_est_a, pos 0)
  token_estimates in_range liquidity lower_sqrt_price upper_sqrt_price sqrt_price = do
    token_est_a ← get_token_a_from_liquidity math liquidity sqrt_price upper_sqrt_price true
    token_est_b ← get_token_b_from_liquidity math liquidity lower_sqrt_price sqrt_price true
    ok (token_est_a, token_est_b)
  token_estimates above_range liquidity lower_sqrt_price upper_sqrt_price sqrt_price = do
    token_est_b ← get_token_b_from_liquidity math liquidity lower_sqrt_price upper_sqrt_price true
    ok (pos 0, token_est_b)

  unfoldable pub get_token_estimates_from_liquidity : ℤ → ℤ → ℤ → ℤ → Result (ℤ × ℤ)
  get_token_estimates_from_liquidity liquidity tick_lower_index tick_upper_index sqrt_price = do
    throw_if (eq_ℤ liquidity (pos 0)) error
    lower_sqrt_price ← tick_index_to_sqrt_price_x64 bits tick_lower_index
    upper_sqrt_price ← tick_index_to_sqrt_price_x64 bits tick_upper_index
    position_status ← get_strict_position_status bits sqrt_price tick_lower_index tick_upper_index
    token_estimates position_status liquidity lower_sqrt_price upper_sqrt_price sqrt_price

  module _ {Mint Config : Type 0} (spl : SplToken Mint Config) where
    -- The end of the quotes of two tokens: the transfer fees of the maximums and the estimates.
    unfoldable pub include_fees :
        TokenExtensionContext Mint → ℤ → ℤ × ℤ → ℤ × ℤ → Result IncreaseLiquidityQuote
    include_fees ctx liquidity token_max token_est = do
      max_a ←
          calculate_transfer_fee_included_amount spl token_max.0 ctx.token_mint_a ctx.current_epoch
      est_a ←
          calculate_transfer_fee_included_amount spl token_est.0 ctx.token_mint_a ctx.current_epoch
      max_b ←
          calculate_transfer_fee_included_amount spl token_max.1 ctx.token_mint_b ctx.current_epoch
      est_b ←
          calculate_transfer_fee_included_amount spl token_est.1 ctx.token_mint_b ctx.current_epoch
      ok (quote_of liquidity max_a est_a max_b est_b)

    unfoldable pub quote_liquidity :
        (ℤ → Percentage → Result SlippageBounds)
        → IncreaseLiquidityQuoteByLiquidityParam Mint
        → Result IncreaseLiquidityQuote
    quote_liquidity get_slippage_bound params = do
      token_est ←
          get_token_estimates_from_liquidity params.liquidity params.tick_lower_index
            params.tick_upper_index params.sqrt_price
      bounds ← get_slippage_bound params.sqrt_price params.slippage_tolerance
      lower ←
          get_token_estimates_from_liquidity params.liquidity params.tick_lower_index
            params.tick_upper_index bounds.lower_sqrt_price
      upper ←
          get_token_estimates_from_liquidity params.liquidity params.tick_lower_index
            params.tick_upper_index bounds.upper_sqrt_price
      include_fees params.token_extension_ctx params.liquidity
          (max_ℤ (max_ℤ token_est.0 lower.0) upper.0, max_ℤ (max_ℤ token_est.1 lower.1) upper.1)
          token_est

    unfoldable pub increase_liquidity_quote_by_liquidity_with_params :
        (ℤ → Percentage → Result SlippageBounds)
        → IncreaseLiquidityQuoteByLiquidityParam Mint
        → Result IncreaseLiquidityQuote
    increase_liquidity_quote_by_liquidity_with_params get_slippage_bound params =
        if eq_ℤ params.liquidity (pos 0)
        then ok empty_quote
        else quote_liquidity get_slippage_bound params
