-- ===== src/Quotes/IncreaseLiquidity/InputToken.antt =====
-- sdk/src/quotes/public/increase-liquidity-quote.ts: the quotes of a deposit of one token.
-- `PublicKey.equals` and the conversion of a Decimal amount are parameters.
use solana_dex_v.Prelude.{
  ℕ, ℤ, pos, ltb_ℤ, eq_ℤ, Bool, true, false, not, ◌||◌, Result, ok, err, error, ◌>>=◌, ◌>>◌,
  invariant, if◌then◌else◌,
}
use solana_dex_v.Sdk.{MathUtil, Percentage, SplToken}
use solana_dex_v.Types.{PoolData}
use solana_dex_v.Price.PriceMath.{BnBits, tick_index_to_sqrt_price_x64}
use solana_dex_v.Ticks.TickUtil.{check_tick_in_bounds, get_initializable_tick_index}
use solana_dex_v.Tokens.TransferFees.{
  TokenExtensionContext, calculate_transfer_fee_included_amount,
  calculate_transfer_fee_excluded_amount,
}
use solana_dex_v.Positions.PositionUtil.{
  PositionStatus, below_range, in_range, above_range, get_strict_position_status,
  adjust_for_slippage, get_liquidity_from_token_a, get_liquidity_from_token_b,
  get_token_a_from_liquidity, get_token_b_from_liquidity,
}
use solana_dex_v.Quotes.DecreaseLiquidity.{SlippageBounds}
use solana_dex_v.Quotes.IncreaseLiquidity.{
  IncreaseLiquidityQuoteParam, IncreaseLiquidityQuote, quote_of, no_amount, empty_quote,
  include_fees, increase_liquidity_quote_by_liquidity_with_params,
}

-- The pool as the two quotes of a Decimal amount take it: its account (`getData`), and what they read
-- of the infos of its two tokens (`getTokenAInfo`, `getTokenBInfo`).
pub record WhirlpoolView (Key : Type 0) : Type 0 where
  pub pool : PoolData Key
  pub info_mint_a : Key
  pub decimals_a : ℕ
  pub decimals_b : ℕ

module _ (math : MathUtil) (bits : BnBits) where
  module _ {Mint Config : Type 0} (spl : SplToken Mint Config) where
    module _ {Key : Type 0} (equals : Key → Key → Bool) where
      abbrev Param : Type 0
      Param = IncreaseLiquidityQuoteParam Key Mint

      -- The input after the transfer fee of its token.
      abbrev pub excluded_input_a : Param → ℤ
      excluded_input_a param =
          (calculate_transfer_fee_excluded_amount spl param.input_token_amount
            param.token_extension_ctx.token_mint_a param.token_extension_ctx.current_epoch).amount

      abbrev pub excluded_input_b : Param → ℤ
      excluded_input_b param =
          (calculate_transfer_fee_excluded_amount spl param.input_token_amount
            param.token_extension_ctx.token_mint_b param.token_extension_ctx.current_epoch).amount

      unfoldable pub quote_position_below_range : Param → Result IncreaseLiquidityQuote
      quote_position_below_range param =
          if not (equals param.token_mint_a param.input_token_mint) then ok empty_quote else do
            let ctx = param.token_extension_ctx
            lower ← tick_index_to_sqrt_price_x64 bits param.tick_lower_index
            upper ← tick_index_to_sqrt_price_x64 bits param.tick_upper_index
            liquidity_amount ←
                get_liquidity_from_token_a math (excluded_input_a param) lower upper false
            token_est_a ← get_token_a_from_liquidity math liquidity_amount lower upper true
            token_max_a ← adjust_for_slippage token_est_a param.slippage_tolerance true
            max_a ←
                calculate_transfer_fee_included_amount spl token_max_a ctx.token_mint_a
                  ctx.current_epoch
            est_a ←
                calculate_transfer_fee_included_amount spl token_est_a ctx.token_mint_a
                  ctx.current_epoch
            ok (quote_of liquidity_amount max_a est_a no_amount no_amount)

      unfoldable pub quote_position_above_range : Param → Result IncreaseLiquidityQuote
      quote_position_above_range param =
          if not (equals param.token_mint_b param.input_token_mint) then ok empty_quote else do
            let ctx = param.token_extension_ctx
            lower ← tick_index_to_sqrt_price_x64 bits param.tick_lower_index
            upper ← tick_index_to_sqrt_price_x64 bits param.tick_upper_index
            liquidity_amount ←
                get_liquidity_from_token_b math (excluded_input_b param) lower upper false
            token_est_b ← get_token_b_from_liquidity math liquidity_amount lower upper true
            token_max_b ← adjust_for_slippage token_est_b param.slippage_tolerance true
            max_b ←
                calculate_transfer_fee_included_amount spl token_max_b ctx.token_mint_b
                  ctx.current_epoch
            est_b ←
                calculate_transfer_fee_included_amount spl token_est_b ctx.token_mint_b
                  ctx.current_epoch
            ok (quote_of liquidity_amount no_amount no_amount max_b est_b)

      -- The liquidity that the input buys in range, by its token.
      unfoldable pub liquidity_in_range : Param → ℤ → ℤ → Result ℤ
      liquidity_in_range param lower upper =
          if equals param.token_mint_a param.input_token_mint
          then get_liquidity_from_token_a math (excluded_input_a param) param.sqrt_price upper false
          else if equals param.token_mint_b param.input_token_mint
          then get_liquidity_from_token_b math (excluded_input_b param) lower param.sqrt_price false
          else err error

      unfoldable pub quote_position_in_range : Param → Result IncreaseLiquidityQuote
      quote_position_in_range param = do
        lower ← tick_index_to_sqrt_price_x64 bits param.tick_lower_index
        upper ← tick_index_to_sqrt_price_x64 bits param.tick_upper_index
        liquidity_amount ← liquidity_in_range param lower upper
        token_est_a ← get_token_a_from_liquidity math liquidity_amount param.sqrt_price upper true
        token_est_b ← get_token_b_from_liquidity math liquidity_amount lower param.sqrt_price true
        token_max_a ← adjust_for_slippage token_est_a param.slippage_tolerance true
        token_max_b ← adjust_for_slippage token_est_b param.slippage_tolerance true
        include_fees math bits spl param.token_extension_ctx liquidity_amount
            (token_max_a, token_max_b) (token_est_a, token_est_b)

      unfoldable pub quote_position : PositionStatus → Param → Result IncreaseLiquidityQuote
      quote_position below_range param = quote_position_below_range param
      quote_position in_range param = quote_position_in_range param
      quote_position above_range param = quote_position_above_range param

      -- The checks that both quotes by an input token start with.
      unfoldable pub check_param : Param → Result (Unit {0})
      check_param param = do
        invariant (check_tick_in_bounds param.tick_lower_index)
        invariant (check_tick_in_bounds param.tick_upper_index)
        invariant (
            equals param.input_token_mint param.token_mint_a
            || equals param.input_token_mint param.token_mint_b)

      unfoldable pub increase_liquidity_quote_by_input_token_with_params :
          Param → Result IncreaseLiquidityQuote
      increase_liquidity_quote_by_input_token_with_params param = do
        check_param param
        position_status ←
            get_strict_position_status bits param.sqrt_price param.tick_lower_index
              param.tick_upper_index
        quote_position position_status param

      -- The liquidity for a position by its status; none where it takes only the other token.
      unfoldable pub liquidity_by_status : PositionStatus → Param → ℤ → ℤ → Result ℤ
      liquidity_by_status below_range param lower upper =
          if not (equals param.token_mint_a param.input_token_mint)
          then ok (pos 0)
          else get_liquidity_from_token_a math (excluded_input_a param) lower upper false
      liquidity_by_status above_range param lower upper =
          if equals param.token_mint_a param.input_token_mint
          then ok (pos 0)
          else get_liquidity_from_token_b math (excluded_input_b param) lower upper false
      liquidity_by_status in_range param lower upper =
          if equals param.token_mint_a param.input_token_mint
          then get_liquidity_from_token_a math (excluded_input_a param) param.sqrt_price upper false
          else get_liquidity_from_token_b math (excluded_input_b param) lower param.sqrt_price false

      unfoldable pub liquidity_of_input : Param → Result ℤ
      liquidity_of_input param = do
        lower ← tick_index_to_sqrt_price_x64 bits param.tick_lower_index
        upper ← tick_index_to_sqrt_price_x64 bits param.tick_upper_index
        position_status ←
            get_strict_position_status bits param.sqrt_price param.tick_lower_index
              param.tick_upper_index
        liquidity_by_status position_status param lower upper

      unfoldable pub get_liquidity_from_input_token : Param → Result ℤ
      get_liquidity_from_input_token param = do
        invariant (ltb_ℤ param.tick_lower_index param.tick_upper_index)
        if eq_ℤ param.input_token_amount (pos 0) then ok (pos 0) else liquidity_of_input param

      unfoldable pub increase_liquidity_quote_by_input_token_with_params_using_price_slippage :
          (ℤ → Percentage → Result SlippageBounds) → Param → Result IncreaseLiquidityQuote
      increase_liquidity_quote_by_input_token_with_params_using_price_slippage get_slippage_bound
            param =
          do
            check_param param
            liquidity ← get_liquidity_from_input_token param
            if eq_ℤ liquidity (pos 0)
                then ok empty_quote
                else increase_liquidity_quote_by_liquidity_with_params math bits spl
                    get_slippage_bound
                    (record {
                      liquidity = liquidity;
                      tick_current_index = param.tick_current_index;
                      sqrt_price = param.sqrt_price;
                      tick_lower_index = param.tick_lower_index;
                      tick_upper_index = param.tick_upper_index;
                      token_extension_ctx = param.token_extension_ctx;
                      slippage_tolerance = param.slippage_tolerance;
                    })

      module _ {Decimal : Type 0} (to_bn : Decimal → ℕ → ℤ) where
        unfoldable pub param_of_whirlpool :
            Key
            → Decimal
            → ℤ
            → ℤ
            → Percentage
            → WhirlpoolView Key
            → TokenExtensionContext Mint
            → Param
        param_of_whirlpool input_mint input_token_amount tick_lower tick_upper slippage_tolerance
              whirlpool ctx =
            record {
              input_token_amount = to_bn input_token_amount (
                  if equals input_mint whirlpool.info_mint_a
                  then whirlpool.decimals_a
                  else whirlpool.decimals_b);
              input_token_mint = input_mint;
              token_mint_a = whirlpool.pool.token_mint_a;
              token_mint_b = whirlpool.pool.token_mint_b;
              token_extension_ctx = ctx;
              tick_current_index = whirlpool.pool.tick_current_index;
              sqrt_price = whirlpool.pool.sqrt_price;
              tick_lower_index =
                  get_initializable_tick_index tick_lower whirlpool.pool.tick_spacing;
              tick_upper_index =
                  get_initializable_tick_index tick_upper whirlpool.pool.tick_spacing;
              slippage_tolerance = slippage_tolerance;
            }

        unfoldable pub increase_liquidity_quote_by_input_token :
            Key
            → Decimal
            → ℤ
            → ℤ
            → Percentage
            → WhirlpoolView Key
            → TokenExtensionContext Mint
            → Result IncreaseLiquidityQuote
        increase_liquidity_quote_by_input_token input_mint amount tick_lower tick_upper slippage
              whirlpool ctx =
            increase_liquidity_quote_by_input_token_with_params
              (param_of_whirlpool input_mint amount tick_lower tick_upper slippage whirlpool ctx)

        unfoldable pub increase_liquidity_quote_by_input_token_using_price_slippage :
            (ℤ → Percentage → Result SlippageBounds)
            → Key
            → Decimal
            → ℤ
            → ℤ
            → Percentage
            → WhirlpoolView Key
            → TokenExtensionContext Mint
            → Result IncreaseLiquidityQuote
        increase_liquidity_quote_by_input_token_using_price_slippage get_slippage_bound input_mint
              amount tick_lower tick_upper slippage whirlpool ctx =
            increase_liquidity_quote_by_input_token_with_params_using_price_slippage
              get_slippage_bound
              (param_of_whirlpool input_mint amount tick_lower tick_upper slippage whirlpool ctx)
