-- ===== src/Swap/SlippageQuote/Resubmit.antt =====
-- The quote with slippage: its threshold is one that the same swap passes.
use solana_dex_v.Prelude.{
  ℕ, ◌<◌, ◌≡◌, ℤ, pos, ◌≤ℤ◌, Bool, true, false, ok, refl, arith, >>=-eq-ok, if◌then◌else◌,
}
use solana_dex_v.Sdk.{MathUtil, SplToken}
use solana_dex_v.Price.PriceMath.{BnBits}
use solana_dex_v.Ticks.TickArraySequence.{TickArraySequence}
use solana_dex_v.Positions.PositionUtil.Amounts.{percentage, adjust_for_slippage-bounds}
use solana_dex_v.Swap.SwapQuote.{
  SwapQuoteParam, SwapQuote, check_params, finish_quote, quote_exact_in, quote_exact_out,
  simulate_swap,
}
use solana_dex_v.Swap.SlippageQuote.{
  amounts, calculate_swap_amounts_from_quote, swap_quote_with_params,
}

-- The parameters with another threshold.
abbrev pub with_threshold :
    {Key Mint : Type 0} → SwapQuoteParam Key Mint → ℤ → SwapQuoteParam Key Mint
with_threshold p t = record {
  whirlpool_data = p.whirlpool_data;
  token_amount = p.token_amount;
  other_amount_threshold = t;
  sqrt_price_limit = p.sqrt_price_limit;
  a_to_b = p.a_to_b;
  amount_specified_is_input = p.amount_specified_is_input;
  tick_arrays = p.tick_arrays;
  token_extension_ctx = p.token_extension_ctx;
}

module _ {Key Mint Config : Type 0} (math : MathUtil) (bits : BnBits)
    (spl : SplToken Mint Config) where
  exact_in-again :
      (fuel : ℕ) (p : SwapQuoteParam Key Mint) (s : TickArraySequence Key) (q : SwapQuote Key)
      (t : ℤ)
      → quote_exact_in math bits spl fuel p s ≡ ok q
      → t ≤ℤ q.estimated_amount_out
      → quote_exact_in math bits spl fuel (with_threshold p t) s ≡ ok q
  unfolding quote_exact_in finish_quote
  exact_in-again fuel p s q t h le = ground arith

  exact_out-again :
      (fuel : ℕ) (p : SwapQuoteParam Key Mint) (s : TickArraySequence Key) (q : SwapQuote Key)
      (t : ℤ)
      → quote_exact_out math bits spl fuel p s ≡ ok q
      → q.estimated_amount_in ≤ℤ t
      → quote_exact_out math bits spl fuel (with_threshold p t) s ≡ ok q
  unfolding quote_exact_out finish_quote
  exact_out-again fuel p s q t h le = ground arith

  simulate_swap-again :
      (fuel : ℕ) (p : SwapQuoteParam Key Mint) (q : SwapQuote Key) (t : ℤ)
      → simulate_swap math bits spl fuel p ≡ ok q
      → (if p.amount_specified_is_input
          then t ≤ℤ q.estimated_amount_out
          else q.estimated_amount_in ≤ℤ t)
      → simulate_swap math bits spl fuel (with_threshold p t) ≡ ok q
  unfolding simulate_swap check_params
  simulate_swap-again fuel p q t h le =
      let (s, e, quoted) = >>=-eq-ok (check_params math bits spl p) _ h in
      rw e (again s p.amount_specified_is_input quoted le)
    where
      again :
          (s : TickArraySequence Key) (b : Bool)
          → (if b
              then quote_exact_in math bits spl fuel p s
              else quote_exact_out math bits spl fuel p s)
            ≡ ok q
          → (if b then t ≤ℤ q.estimated_amount_out else q.estimated_amount_in ≤ℤ t)
          → (if b
              then quote_exact_in math bits spl fuel (with_threshold p t) s
              else quote_exact_out math bits spl fuel (with_threshold p t) s)
            ≡ ok q
      again s true quoted le = exact_in-again fuel p s q t quoted le
      again s false quoted le = exact_out-again fuel p s q t quoted le

-- The threshold is on the caller's side of the estimate.
calculate_swap_amounts-threshold :
    (amount : ℤ) (i o s d : ℕ) (b : Bool)
    → 0 < d
    → (t : ℕ) × (calculate_swap_amounts_from_quote amount (pos i) (pos o) (percentage s d) b
        ≡ ok (amounts amount (pos t)))
      × (if b then pos t ≤ℤ pos o else pos i ≤ℤ pos t)
unfolding calculate_swap_amounts_from_quote
calculate_swap_amounts-threshold amount i o s d true d_pos =
    let (_, t, _, e, _, le, same, _) = adjust_for_slippage-bounds o s d d_pos in
    (t, rw (same false, e) refl, omega arith)
calculate_swap_amounts-threshold amount i o s d false d_pos =
    let (t, _, e, _, le, _, same, _) = adjust_for_slippage-bounds i s d d_pos in
    (t, rw (same true, e) refl, omega arith)

module _ {Key Mint Config : Type 0} (math : MathUtil) (bits : BnBits)
    (spl : SplToken Mint Config) where
  -- When a swap can be simulated with estimates that are not negative, and the denominator of the
  -- slippage is positive, the quote with slippage is given: it has the same estimates and the amount of
  -- the parameters, and simulating the swap again under the threshold of the quote gives the same quote.
  pub swap_quote_with_params-simulate_swap :
      (fuel : ℕ) (p : SwapQuoteParam Key Mint) (q : SwapQuote Key) (i o s d : ℕ)
      → simulate_swap math bits spl fuel p ≡ ok q
      → q.estimated_amount_in ≡ pos i
      → q.estimated_amount_out ≡ pos o
      → 0 < d
      → (t : ℕ) × (swap_quote_with_params math bits spl fuel p (percentage s d)
          ≡ ok (q, amounts p.token_amount (pos t)))
        × (simulate_swap math bits spl fuel (with_threshold p (pos t)) ≡ ok q)
  unfolding swap_quote_with_params
  swap_quote_with_params-simulate_swap fuel p q i o s d h hi ho d_pos =
      let (t, e, side) =
        calculate_swap_amounts-threshold p.token_amount i o s d p.amount_specified_is_input d_pos in
      (
        t,
        rw (h, hi, ho, e) refl,
        simulate_swap-again math bits spl fuel p q (pos t) h (rw (hi, ho) side),
      )
