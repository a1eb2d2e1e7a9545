-- ===== src/Examples/Depositing.antt =====
-- A deposit quoted on a concrete pool.
use mathlib.Core.Path.{subst}
use solana_dex_v.Prelude.{ℕ, ◌^◌, ◌≤◌, ◌≡◌, ◌==◌, refl, pos, negsuc, Option, none, some, ok, arith}
use solana_dex_v.Sdk.{TransferFee}
use solana_dex_v.Examples.Packages.{math_util, bn_bits, spl_token, one_percent}
use solana_dex_v.Price.PriceMath
use solana_dex_v.Ticks.TickUtil
use solana_dex_v.Tokens.TransferFees.{TokenExtensionContext}
use solana_dex_v.Quotes.IncreaseLiquidity.{IncreaseLiquidityQuoteParam}
use solana_dex_v.Quotes.IncreaseLiquidity.InputToken.{
  check_param, increase_liquidity_quote_by_input_token_with_params,
}
use solana_dex_v.Quotes.IncreaseLiquidity.Quoted.{
  deposit, AreRated, IsQuoted, increase_liquidity_quote-IsQuoted,
}

abbrev context : TokenExtensionContext (Option TransferFee)
context = record {
  current_epoch = 1;
  token_mint_a = some one_percent;
  token_mint_b = none;
  reward_token_mints = λ i. none;
}

-- A million of token 1 between the ticks -128 and 128, at the price 1.
abbrev request : IncreaseLiquidityQuoteParam ℕ (Option TransferFee)
request = deposit 1000000 1 1 2 context (pos 0) (2 ^ 64) (negsuc 127) (pos 128) 1 100

lower_price_test :
    PriceMath.tick_index_to_sqrt_price_x64 bn_bits (negsuc 127) ≡ ok (pos 18329067761203520168)
unfolding PriceMath.tick_index_to_sqrt_price_x64 PriceMath.tick_index_to_sqrt_price_negative
    PriceMath.apply_factors PriceMath.signed_shift_right
lower_price_test = refl

upper_price_test :
    PriceMath.tick_index_to_sqrt_price_x64 bn_bits (pos 128) ≡ ok (pos 18565175891880433522)
unfolding PriceMath.tick_index_to_sqrt_price_x64 PriceMath.tick_index_to_sqrt_price_positive
    PriceMath.apply_factors PriceMath.signed_shift_right
upper_price_test = refl

request_checked : check_param math_util bn_bits spl_token ◌==◌ request ≡ ok tt
unfolding check_param TickUtil.check_tick_in_bounds
request_checked = refl

context_rated : AreRated spl_token context
context_rated = (λ c e. rated c e, λ c e. cc)
  where
    rated : (c : TransferFee) → some one_percent ≡ some c → c.transfer_fee_basis_points ≤ 10000
    rated c e =
        let same : one_percent ≡ c = cc in
        subst (λ (f : TransferFee). f.transfer_fee_basis_points ≤ 10000) same (omega arith)

increase_liquidity_quote-IsQuoted_example :
    IsQuoted spl_token context 1000000 18329067761203520168
      (2 ^ 64)
      18565175891880433522
      1
      100
      (increase_liquidity_quote_by_input_token_with_params math_util bn_bits spl_token ◌==◌ request)
increase_liquidity_quote-IsQuoted_example =
    increase_liquidity_quote-IsQuoted spl_token context math_util bn_bits ◌==◌ 1000000 1 1 2 (pos 0)
      (negsuc 127) (pos 128) (2 ^ 64) 1 100 18329067761203520168 18565175891880433522
      lower_price_test upper_price_test (omega arith) (omega arith) request_checked refl
      context_rated (omega arith) (omega arith)
