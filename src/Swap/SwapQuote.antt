-- ===== src/Swap/SwapQuote.antt =====
-- sdk/src/quotes/swap/swap-quote-impl.ts: the quote of a swap. The fuel is that of the loop.
pub mod Guards
use solana_dex_v.Prelude.{
  ℕ, ltb, ℤ, pos, ltb_ℤ, eq_ℤ, Bool, true, false, not, ◌&&◌, ◌||◌, Option, List, get_elem?, Result,
  ok, sqrt_price_out_of_bounds, invalid_sqrt_price_limit_direction, zero_tradable_amount,
  tick_array_sequence_invalid, amount_out_below_minimum, amount_in_above_maximum,
  tick_array_crossing_above_max, ◌>>=◌, ◌>>◌, throw_if, if◌then◌else◌,
}
use solana_dex_v.Sdk.{MathUtil, SplToken}
use solana_dex_v.Types.{PoolData, max_sqrt_price, min_sqrt_price, max_swap_tick_arrays}
use solana_dex_v.Price.PriceMath.{BnBits}
use solana_dex_v.Ticks.TickArraySequence.{
  TickArray, TickArraySequence, new, is_valid_tick_array0, get_num_of_touched_arrays,
  get_touched_arrays,
}
use solana_dex_v.Tokens.TransferFees.{
  TransferFeeAmount, TokenExtensionContext, amount_and_fee, calculate_transfer_fee_included_amount,
  calculate_transfer_fee_excluded_amount,
}
use solana_dex_v.Swap.SwapManager.{SwapResult, compute_swap}

pub record SwapQuoteParam (Key Mint : Type 0) : Type 0 where
  pub whirlpool_data : PoolData Key
  pub token_amount : ℤ
  pub other_amount_threshold : ℤ
  pub sqrt_price_limit : ℤ
  pub a_to_b : Bool
  pub amount_specified_is_input : Bool
  pub tick_arrays : List (TickArray Key)
  pub token_extension_ctx : TokenExtensionContext Mint

-- The estimates of a quote, and its arrays; its inputs are copied from the parameters.
pub record SwapQuote (Key : Type 0) : Type 0 where
  pub estimated_amount_in : ℤ
  pub estimated_amount_out : ℤ
  pub estimated_end_tick_index : ℤ
  pub estimated_end_sqrt_price : ℤ
  pub estimated_fee_amount : ℤ
  pub deducting_from_estimated_amount_in : ℤ
  pub deducted_from_estimated_amount_out : ℤ
  pub tick_array0 : Option Key
  pub tick_array1 : Option Key
  pub tick_array2 : Option Key

abbrev pub amount_in_of : Bool → SwapResult → ℤ
amount_in_of a_to_b r = if a_to_b then r.amount_a else r.amount_b

abbrev pub amount_out_of : Bool → SwapResult → ℤ
amount_out_of a_to_b r = if a_to_b then r.amount_b else r.amount_a

module _ {Key Mint Config : Type 0} (math : MathUtil) (bits : BnBits)
    (spl : SplToken Mint Config) where
  abbrev pub mint_in : SwapQuoteParam Key Mint → Mint
  mint_in p =
      if p.a_to_b then p.token_extension_ctx.token_mint_a else p.token_extension_ctx.token_mint_b

  abbrev pub mint_out : SwapQuoteParam Key Mint → Mint
  mint_out p =
      if p.a_to_b then p.token_extension_ctx.token_mint_b else p.token_extension_ctx.token_mint_a

  -- The guards before the direction of the quote is looked at, and the sequence.
  unfoldable pub check_params : SwapQuoteParam Key Mint → Result (TickArraySequence Key)
  check_params p = do
    throw_if (ltb_ℤ max_sqrt_price p.sqrt_price_limit || ltb_ℤ p.sqrt_price_limit min_sqrt_price)
        sqrt_price_out_of_bounds
    throw_if
        (p.a_to_b && ltb_ℤ p.whirlpool_data.sqrt_price p.sqrt_price_limit
          || not p.a_to_b && ltb_ℤ p.sqrt_price_limit p.whirlpool_data.sqrt_price)
        invalid_sqrt_price_limit_direction
    throw_if (eq_ℤ p.token_amount (pos 0)) zero_tradable_amount
    tick_sequence ← new p.tick_arrays p.whirlpool_data.tick_spacing p.a_to_b
    valid ← is_valid_tick_array0 tick_sequence p.whirlpool_data.tick_current_index
    throw_if (not valid) tick_array_sequence_invalid
    ok tick_sequence

  -- The end of both directions: the count of the arrays, and the quote.
  unfoldable pub finish_quote :
      SwapResult
      → TickArraySequence Key
      → TransferFeeAmount
      → TransferFeeAmount
      → Result (SwapQuote Key)
  finish_quote swap_results tick_sequence transfer_fee_included_in transfer_fee_excluded_out = do
    throw_if (ltb max_swap_tick_arrays (get_num_of_touched_arrays tick_sequence))
        tick_array_crossing_above_max
    let touched_arrays = get_touched_arrays tick_sequence max_swap_tick_arrays
    ok (record {
      estimated_amount_in = transfer_fee_included_in.amount;
      estimated_amount_out = transfer_fee_excluded_out.amount;
      estimated_end_tick_index = swap_results.next_tick_index;
      estimated_end_sqrt_price = swap_results.next_sqrt_price;
      estimated_fee_amount = swap_results.total_fee_amount;
      deducting_from_estimated_amount_in = transfer_fee_included_in.fee;
      deducted_from_estimated_amount_out = transfer_fee_excluded_out.fee;
      tick_array0 = get_elem? touched_arrays 0;
      tick_array1 = get_elem? touched_arrays 1;
      tick_array2 = get_elem? touched_arrays 2;
    })

  unfoldable pub quote_exact_in :
      ℕ → SwapQuoteParam Key Mint → TickArraySequence Key → Result (SwapQuote Key)
  quote_exact_in fuel p tick_sequence = do
    let epoch = p.token_extension_ctx.current_epoch
    let excluded_in = calculate_transfer_fee_excluded_amount spl p.token_amount (mint_in p) epoch
    throw_if (eq_ℤ excluded_in.amount (pos 0)) zero_tradable_amount
    r ←
        compute_swap math bits fuel p.whirlpool_data tick_sequence excluded_in.amount
          p.sqrt_price_limit p.amount_specified_is_input p.a_to_b
    let excluded_out =
        calculate_transfer_fee_excluded_amount spl (amount_out_of p.a_to_b r.0) (mint_out p) epoch
    throw_if (ltb_ℤ excluded_out.amount p.other_amount_threshold) amount_out_below_minimum
    included_in ←
        if eq_ℤ (amount_in_of p.a_to_b r.0) excluded_in.amount
        then ok (amount_and_fee p.token_amount excluded_in.fee)
        else calculate_transfer_fee_included_amount spl (amount_in_of p.a_to_b r.0) (mint_in p)
            epoch
    finish_quote r.0 r.1 included_in excluded_out

  unfoldable pub quote_exact_out :
      ℕ → SwapQuoteParam Key Mint → TickArraySequence Key → Result (SwapQuote Key)
  quote_exact_out fuel p tick_sequence = do
    let epoch = p.token_extension_ctx.current_epoch
    included_out ← calculate_transfer_fee_included_amount spl p.token_amount (mint_out p) epoch
    r ←
        compute_swap math bits fuel p.whirlpool_data tick_sequence included_out.amount
          p.sqrt_price_limit p.amount_specified_is_input p.a_to_b
    included_in ←
        calculate_transfer_fee_included_amount spl (amount_in_of p.a_to_b r.0) (mint_in p) epoch
    throw_if (ltb_ℤ p.other_amount_threshold included_in.amount) amount_in_above_maximum
    let excluded_out =
        calculate_transfer_fee_excluded_amount spl (amount_out_of p.a_to_b r.0) (mint_out p) epoch
    finish_quote r.0 r.1 included_in excluded_out

  unfoldable pub simulate_swap : ℕ → SwapQuoteParam Key Mint → Result (SwapQuote Key)
  simulate_swap fuel p = do
    tick_sequence ← check_params p
    if p.amount_specified_is_input
        then quote_exact_in fuel p tick_sequence
        else quote_exact_out fuel p tick_sequence
