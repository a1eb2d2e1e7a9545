-- ===== src/Swap/SwapQuote/Guards.antt =====
-- What a quote promises to its caller, and what it refuses.
use solana_dex_v.Prelude.{
  ℕ, ◌≤◌, ◌≡◌, ◌≢◌, pos, ◌≤ℤ◌, Bool, true, false, ok, arith, >>=-eq-ok, if◌then◌else◌,
}
use solana_dex_v.Sdk.{MathUtil, SplToken}
use solana_dex_v.Types.{max_sqrt_price, min_sqrt_price}
use solana_dex_v.Price.PriceMath.{BnBits}
use solana_dex_v.Ticks.TickArraySequence.{TickArraySequence, get_num_of_touched_arrays}
use solana_dex_v.Tokens.TransferFees.{TransferFeeAmount}
use solana_dex_v.Swap.SwapManager.{SwapResult}
use solana_dex_v.Swap.SwapQuote.{
  SwapQuoteParam, SwapQuote, check_params, finish_quote, quote_exact_in, quote_exact_out,
  simulate_swap,
}

module _ {Key Mint Config : Type 0} (math : MathUtil) (bits : BnBits)
    (spl : SplToken Mint Config) where
  finish_quote-estimates :
      (r : SwapResult) (s : TickArraySequence Key) (i o : TransferFeeAmount) (q : SwapQuote Key)
      → finish_quote math bits spl r s i o ≡ ok q
      → (q.estimated_amount_in ≡ i.amount)
        × (q.estimated_amount_out ≡ o.amount)
        × (get_num_of_touched_arrays s ≤ 3)
  unfolding finish_quote
  finish_quote-estimates r s i o q h = ground arith

  exact_in-threshold :
      (fuel : ℕ) (p : SwapQuoteParam Key Mint) (s : TickArraySequence Key) (q : SwapQuote Key)
      → quote_exact_in math bits spl fuel p s ≡ ok q
      → p.other_amount_threshold ≤ℤ q.estimated_amount_out
  unfolding quote_exact_in finish_quote
  exact_in-threshold fuel p s q h = ground arith

  exact_out-threshold :
      (fuel : ℕ) (p : SwapQuoteParam Key Mint) (s : TickArraySequence Key) (q : SwapQuote Key)
      → quote_exact_out math bits spl fuel p s ≡ ok q
      → q.estimated_amount_in ≤ℤ p.other_amount_threshold
  unfolding quote_exact_out finish_quote
  exact_out-threshold fuel p s q h = ground arith

  check_params-guards :
      (p : SwapQuoteParam Key Mint) (s : TickArraySequence Key)
      → check_params math bits spl p ≡ ok s
      → (min_sqrt_price ≤ℤ p.sqrt_price_limit)
        × (p.sqrt_price_limit ≤ℤ max_sqrt_price)
        × ((if p.a_to_b then p.sqrt_price_limit else p.whirlpool_data.sqrt_price)
            ≤ℤ (if p.a_to_b then p.whirlpool_data.sqrt_price else p.sqrt_price_limit))
        × (p.token_amount ≢ pos 0)
  unfolding check_params
  check_params-guards p s h = ground arith

  -- A quote is given only for a price limit within the bounds and on the right side of the pool's
  -- price, and for an amount that is not zero; an exact input yields at least the caller's threshold
  -- and an exact output costs at most it, transfer fees accounted for.
  pub simulate_swap-thresholds :
      (fuel : ℕ) (p : SwapQuoteParam Key Mint) (q : SwapQuote Key)
      → simulate_swap math bits spl fuel p ≡ ok q
      → (min_sqrt_price ≤ℤ p.sqrt_price_limit)
        × (p.sqrt_price_limit ≤ℤ max_sqrt_price)
        × ((if p.a_to_b then p.sqrt_price_limit else p.whirlpool_data.sqrt_price)
            ≤ℤ (if p.a_to_b then p.whirlpool_data.sqrt_price else p.sqrt_price_limit))
        × (p.token_amount ≢ pos 0)
        × (if p.amount_specified_is_input
            then p.other_amount_threshold ≤ℤ q.estimated_amount_out
            else q.estimated_amount_in ≤ℤ p.other_amount_threshold)
  unfolding simulate_swap
  simulate_swap-thresholds fuel p q h =
      let (s, e, quoted) = >>=-eq-ok (check_params math bits spl p) _ h in
      let (low, high, side, nonzero) = check_params-guards p s e in
      (low, high, side, nonzero, threshold s p.amount_specified_is_input quoted)
    where
      threshold :
          (s : TickArraySequence Key) (b : Bool)
          → (if b
              then quote_exact_in math bits spl fuel p s
              else quote_exact_out math bits spl fuel p s)
            ≡ ok q
          → if b
            then p.other_amount_threshold ≤ℤ q.estimated_amount_out
            else q.estimated_amount_in ≤ℤ p.other_amount_threshold
      threshold s true e = exact_in-threshold fuel p s q e
      threshold s false e = exact_out-threshold fuel p s q e
