-- ===== src/Swap/DevFeeQuote.antt =====
-- sdk/src/quotes/public/dev-fee-swap-quote.ts: the quote of a swap that pays a fee to a developer.
pub mod Paid
use solana_dex_v.Prelude.{
  ℕ, ℤ, ◌+ℤ◌, ◌-ℤ◌, ◌*ℤ◌, Bool, Option, List, Result, ok, invalid_dev_fee_percentage, ◌>>=◌, ◌>>◌,
  throw_if,
}
use solana_dex_v.Bn.{div}
use solana_dex_v.Sdk.{MathUtil, Percentage, SplToken}
use solana_dex_v.Types.{TickArrayData}
use solana_dex_v.Price.PriceMath.{BnBits}
use solana_dex_v.Tokens.TransferFees.{TokenExtensionContext}
use solana_dex_v.Swap.SwapQuote.{SwapQuote}
use solana_dex_v.Swap.SlippageQuote.{SwapAmounts}
use solana_dex_v.Swap.TokenQuote.{Pool, swap_quote_by_input_token}

pub record DevFeeSwapQuote (Key : Type 0) : Type 0 where
  pub swap_quote : SwapQuote Key
  pub swap_amounts : SwapAmounts
  pub estimated_swap_fee_amount : ℤ
  pub dev_fee_amount : ℤ

-- `devFeeAdjustedQuote`.
unfoldable pub add_dev_fee : {Key : Type 0} → ℤ → SwapQuote Key × SwapAmounts → DevFeeSwapQuote Key
add_dev_fee dev_fee_amount (quote, amounts) = record {
  swap_quote = record {
    estimated_amount_in = quote.estimated_amount_in +ℤ dev_fee_amount;
    estimated_amount_out = quote.estimated_amount_out;
    estimated_end_tick_index = quote.estimated_end_tick_index;
    estimated_end_sqrt_price = quote.estimated_end_sqrt_price;
    estimated_fee_amount = quote.estimated_fee_amount +ℤ dev_fee_amount;
    deducting_from_estimated_amount_in = quote.deducting_from_estimated_amount_in;
    deducted_from_estimated_amount_out = quote.deducted_from_estimated_amount_out;
    tick_array0 = quote.tick_array0;
    tick_array1 = quote.tick_array1;
    tick_array2 = quote.tick_array2;
  };
  swap_amounts = amounts;
  estimated_swap_fee_amount = quote.estimated_fee_amount;
  dev_fee_amount = dev_fee_amount;
}

-- `is_at_least_one p` is `p.toDecimal().greaterThanOrEqualTo(1)`.
module _ {Key Mint Config : Type 0} (equals : Key → Key → Bool) (find_address : Key → ℤ → Key)
    (fetch : List Key → List (Option TickArrayData)) (ctx : TokenExtensionContext Mint)
    (math : MathUtil) (bits : BnBits) (spl : SplToken Mint Config) (fuel : ℕ)
    (is_at_least_one : Percentage → Bool) where
  unfoldable pub swap_quote_by_input_token_with_dev_fees :
      Pool Key → Key → ℤ → Percentage → Percentage → Result (DevFeeSwapQuote Key)
  swap_quote_by_input_token_with_dev_fees pool input_token_mint token_amount slippage_tolerance
        dev_fee_percentage =
      do
        throw_if (is_at_least_one dev_fee_percentage) invalid_dev_fee_percentage
        dev_fee_amount ←
            div (token_amount *ℤ dev_fee_percentage.numerator) dev_fee_percentage.denominator
        slippage_adjusted_quote ←
            swap_quote_by_input_token equals find_address fetch ctx math bits spl fuel pool
              input_token_mint (token_amount -ℤ dev_fee_amount) slippage_tolerance
        ok (add_dev_fee dev_fee_amount slippage_adjusted_quote)
