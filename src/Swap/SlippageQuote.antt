-- ===== src/Swap/SlippageQuote.antt =====
-- swapQuoteWithParams (sdk/src/quotes/public/swap-quote.ts) and SwapUtils.calculateSwapAmountsFromQuote
-- (sdk/src/utils/public/swap-utils.ts): the quote with the threshold that the slippage leaves.
pub mod Resubmit
use solana_dex_v.Prelude.{ℕ, ℤ, Bool, true, false, Result, ok, ◌>>=◌, if◌then◌else◌}
use solana_dex_v.Sdk.{MathUtil, Percentage, SplToken}
use solana_dex_v.Price.PriceMath.{BnBits}
use solana_dex_v.Math.TokenMath.{adjust_for_slippage}
use solana_dex_v.Swap.SwapQuote.{SwapQuoteParam, SwapQuote, simulate_swap}

-- The inputs of a swap that the slippage sets.
pub record SwapAmounts : Type 0 where
  pub amount : ℤ
  pub other_amount_threshold : ℤ

abbrev pub amounts : ℤ → ℤ → SwapAmounts
amounts amount threshold = record { amount = amount; other_amount_threshold = threshold }

unfoldable pub calculate_swap_amounts_from_quote :
    ℤ → ℤ → ℤ → Percentage → Bool → Result SwapAmounts
calculate_swap_amounts_from_quote amount est_amount_in est_amount_out slippage_tolerance true = do
  other_amount_threshold ← adjust_for_slippage est_amount_out slippage_tolerance false
  ok (amounts amount other_amount_threshold)
calculate_swap_amounts_from_quote amount est_amount_in est_amount_out slippage_tolerance false = do
  other_amount_threshold ← adjust_for_slippage est_amount_in slippage_tolerance true
  ok (amounts amount other_amount_threshold)

module _ {Key Mint Config : Type 0} (math : MathUtil) (bits : BnBits)
    (spl : SplToken Mint Config) where
  unfoldable pub swap_quote_with_params :
      ℕ → SwapQuoteParam Key Mint → Percentage → Result (SwapQuote Key × SwapAmounts)
  swap_quote_with_params fuel params slippage_tolerance = do
    quote ← simulate_swap math bits spl fuel params
    adjusted ←
        calculate_swap_amounts_from_quote params.token_amount quote.estimated_amount_in
          quote.estimated_amount_out slippage_tolerance params.amount_specified_is_input
    ok (quote, adjusted)
