-- ===== src/Examples/Quoting.antt =====
-- A whole swap on concrete accounts, and the theorems on quotes applied to it.
use solana_dex_v.Prelude.{
  ℕ, suc, ◌^◌, ◌+◌, ◌*◌, ◌/◌, ◌<◌, ◌≤◌, ◌≡◌, ◌≢◌, ◌⊎◌, refl, ℤ, pos, ◌≤ℤ◌, Bool, true, false,
  Option, none, some, [], ◌∷◌, replicate, ok, err, out_of_fuel, arith, max, length,
}
use solana_dex_v.Examples.Packages.{math_util, bn_bits, spl_token, one_percent}
use solana_dex_v.Types.{TickData, TickArrayData, PoolData, min_sqrt_price, max_sqrt_price}
use solana_dex_v.Sdk.{TransferFee}
use solana_dex_v.Math.BitMath
use solana_dex_v.Math.TokenMath
use solana_dex_v.Math.SwapMath
use solana_dex_v.Math.SwapMath.{SwapStep}
use solana_dex_v.Price.PriceMath
use solana_dex_v.Price.PriceMath.Sides.{tick_index_to_sqrt_price_x64-side}
use solana_dex_v.Ticks.TickArrayIndex
use solana_dex_v.Ticks.TickArraySequence
use solana_dex_v.Ticks.TickArraySequence.Ends.{find_next_initialized_tick_index-ends}
use solana_dex_v.Ticks.TickArraySequence.Touched.{
  IsWellFormed, new-IsWellFormed, get_tick-IsWellFormed, length-get_touched_arrays,
}
use solana_dex_v.Tokens.TransferFees
use solana_dex_v.Swap.SwapManager
use solana_dex_v.Swap.SwapManager.{SwapResult, SwapState, compute_swap, is_running, initial_state}
use solana_dex_v.Swap.SwapManager.Ledger.{IsBooked, compute_swap-Books}
use solana_dex_v.Swap.SwapManager.FeeSplit.{calculate_fees-no_protocol_fee, fees_of}
use solana_dex_v.Swap.SwapQuote
use solana_dex_v.Swap.SwapQuote.{SwapQuoteParam, simulate_swap}
use solana_dex_v.Positions.PositionUtil.Amounts.{percentage}
use solana_dex_v.Swap.SlippageQuote.{amounts, swap_quote_with_params}
use solana_dex_v.Swap.SlippageQuote.Resubmit.{with_threshold, swap_quote_with_params-simulate_swap}
use solana_dex_v.Swap.SwapQuote.Guards.{simulate_swap-thresholds}

abbrev tick : Bool → ℤ → TickData
tick on net = record {
  initialized = on;
  liquidity_net = net;
  liquidity_gross = net;
  fee_growth_outside_a = pos 0;
  fee_growth_outside_b = pos 0;
  reward_growths_outside = [];
}

-- Ticks 0 to 5631 in steps of 64; only tick 64 is initialized.
abbrev array : TickArrayData
array = record {
  start_tick_index = pos 0;
  ticks = tick false (pos 0) ∷ tick true (pos 400000000) ∷ replicate 86 (tick false (pos 0));
}

abbrev pool : PoolData ℕ
pool = record {
  fee_rate = 3000;
  protocol_fee_rate = 300;
  liquidity = pos 1000000000;
  sqrt_price = pos 18539204128674405812;
  tick_current_index = pos 100;
  token_mint_a = 1;
  token_vault_a = 21;
  fee_growth_global_a = pos 0;
  token_mint_b = 2;
  token_vault_b = 22;
  fee_growth_global_b = pos 0;
  reward_last_updated_timestamp = pos 0;
  reward_infos = [];
  tick_spacing = 64;
}

abbrev param : SwapQuoteParam ℕ (Option TransferFee)
param = record {
  whirlpool_data = pool;
  token_amount = pos 2000000;
  other_amount_threshold = pos 1;
  sqrt_price_limit = pos 4295048016;
  a_to_b = true;
  amount_specified_is_input = true;
  tick_arrays = record { address = 7; account_data = some array } ∷ [];
  token_extension_ctx = record {
    current_epoch = 1;
    token_mint_a = some one_percent;
    token_mint_b = none;
    reward_token_mints = λ i. none;
  };
}

abbrev quote : SwapQuote.SwapQuote ℕ
quote = record {
  estimated_amount_in = pos 2000000;
  estimated_amount_out = pos 2009930;
  estimated_end_tick_index = pos 57;
  estimated_end_sqrt_price = pos 18499635567383504266;
  estimated_fee_amount = pos 6001;
  deducting_from_estimated_amount_in = pos 50;
  deducted_from_estimated_amount_out = pos 0;
  tick_array0 = some 7;
  tick_array1 = some 7;
  tick_array2 = some 7;
}

abbrev sequence : Bool → TickArraySequence.TickArraySequence ℕ
sequence touched = record {
  sequence = record { address = 7; account_data = array } ∷ [];
  touched_arrays = touched ∷ [];
  start_array_index = pos 0;
  tick_spacing = 64;
  a_to_b = true;
}

abbrev result : SwapResult
result = record {
  amount_a = pos 1999950;
  amount_b = pos 2009930;
  next_tick_index = pos 57;
  next_sqrt_price = pos 18499635567383504266;
  total_fee_amount = pos 6001;
}

-- The swap crosses tick 64, where the liquidity falls, and ends between ticks.
compute_swap_test :
    compute_swap math_util bn_bits 5 pool (sequence false) (pos 1999950) (pos 4295048016) true true
    ≡ ok (result, sequence true)
unfolding compute_swap SwapManager.swap_loop is_running SwapManager.swap_iteration
    TickArraySequence.find_next_initialized_tick_index TickArraySequence.is_array_index_in_bounds
    BitMath.checked_mul_shift_right_round_up_if BitMath.div_round_up BitMath.div_round_up_if
    BitMath.is_over_limit BitMath.mul BitMath.mul_div BitMath.mul_div_round_up
    BitMath.mul_div_round_up_if SwapMath.compute_swap_step SwapMath.get_amount_calc
    SwapMath.get_amount_fixed_delta SwapMath.get_amount_unfixed_delta SwapMath.get_fee_amount
    TokenMath.get_amount_delta_a TokenMath.get_amount_delta_b TokenMath.get_next_sqrt_price
    TokenMath.get_next_sqrt_price_from_a_round_up TokenMath.get_next_sqrt_price_from_b_round_down
    TokenMath.to_increasing_price_order PriceMath.apply_factors PriceMath.log2p_fraction
    PriceMath.signed_shift_left PriceMath.signed_shift_right PriceMath.sqrt_price_x64_to_tick_index
    PriceMath.tick_bounds PriceMath.tick_index_to_sqrt_price_negative
    PriceMath.tick_index_to_sqrt_price_positive PriceMath.tick_index_to_sqrt_price_x64
    SwapManager.calculate_est_tokens SwapManager.calculate_fees SwapManager.calculate_next_liquidity
    SwapManager.calculate_protocol_fee SwapManager.cross_tick SwapManager.get_next_sqrt_prices
    SwapManager.land_between SwapManager.land_on_tick SwapManager.next_calculated
    SwapManager.next_remaining TickArrayIndex.to_prev_initializable_tick_index
    TickArrayIndex.to_tick_index TickArraySequence.get_local_array_index TickArraySequence.get_tick
    TickArraySequence.search_from TickArrayIndex.from_tick_index TickArrayIndex.new
    TickArraySequence.check_if_index_is_in_tick_array_range
compute_swap_test = refl

simulate_swap_test : simulate_swap math_util bn_bits spl_token 5 param ≡ ok quote
unfolding simulate_swap SwapQuote.check_params TickArraySequence.new TickArraySequence.new_from
    TickArraySequence.initialized_prefix TickArrayIndex.from_tick_index TickArrayIndex.new
    TickArraySequence.is_valid_tick_array0 TickArraySequence.check_if_index_is_in_tick_array_range
    SwapQuote.quote_exact_in TransferFees.calculate_transfer_fee_excluded_amount
    TransferFees.exclude_fee SwapQuote.finish_quote TickArraySequence.get_num_of_touched_arrays
    TickArraySequence.get_touched_arrays TickArraySequence.pad_with_last
    TickArraySequence.touched_addresses compute_swap SwapManager.swap_loop is_running
    SwapManager.swap_iteration TickArraySequence.find_next_initialized_tick_index
    TickArraySequence.is_array_index_in_bounds BitMath.checked_mul_shift_right_round_up_if
    BitMath.div_round_up BitMath.div_round_up_if BitMath.is_over_limit BitMath.mul BitMath.mul_div
    BitMath.mul_div_round_up BitMath.mul_div_round_up_if SwapMath.compute_swap_step
    SwapMath.get_amount_calc SwapMath.get_amount_fixed_delta SwapMath.get_amount_unfixed_delta
    SwapMath.get_fee_amount TokenMath.get_amount_delta_a TokenMath.get_amount_delta_b
    TokenMath.get_next_sqrt_price TokenMath.get_next_sqrt_price_from_a_round_up
    TokenMath.get_next_sqrt_price_from_b_round_down TokenMath.to_increasing_price_order
    PriceMath.apply_factors PriceMath.log2p_fraction PriceMath.signed_shift_left
    PriceMath.signed_shift_right PriceMath.sqrt_price_x64_to_tick_index PriceMath.tick_bounds
    PriceMath.tick_index_to_sqrt_price_negative PriceMath.tick_index_to_sqrt_price_positive
    PriceMath.tick_index_to_sqrt_price_x64 SwapManager.calculate_est_tokens
    SwapManager.calculate_fees SwapManager.calculate_next_liquidity
    SwapManager.calculate_protocol_fee SwapManager.cross_tick SwapManager.get_next_sqrt_prices
    SwapManager.land_between SwapManager.land_on_tick SwapManager.next_calculated
    SwapManager.next_remaining TickArrayIndex.to_prev_initializable_tick_index
    TickArrayIndex.to_tick_index TickArraySequence.get_local_array_index TickArraySequence.get_tick
    TickArraySequence.search_from
simulate_swap_test = refl

simulate_swap-thresholds_example :
    (min_sqrt_price ≤ℤ pos 4295048016)
    × (pos 4295048016 ≤ℤ max_sqrt_price)
    × (pos 4295048016 ≤ℤ pos 18539204128674405812)
    × (pos 2000000 ≢ pos 0)
    × (pos 1 ≤ℤ pos 2009930)
simulate_swap-thresholds_example =
    simulate_swap-thresholds math_util bn_bits spl_token 5 param quote simulate_swap_test

compute_swap-Books_example :
    IsBooked math_util bn_bits pool (pos 4295048016) true true (sequence false) (pos 1999950) result
compute_swap-Books_example =
    compute_swap-Books math_util bn_bits pool (pos 4295048016) true true 5 (sequence false)
      (sequence true) (pos 1999950) result compute_swap_test

find_next_initialized_tick_index-ends_example :
    TickArraySequence.find_next_initialized_tick_index (sequence false) (pos 100) ≢ err out_of_fuel
find_next_initialized_tick_index-ends_example =
    find_next_initialized_tick_index-ends (sequence false) (pos 100) (omega arith)

tick_index_to_sqrt_price_x64_test :
    PriceMath.tick_index_to_sqrt_price_x64 bn_bits (pos 100) ≡ ok (pos 18539204128674405812)
unfolding PriceMath.tick_index_to_sqrt_price_x64 PriceMath.tick_index_to_sqrt_price_positive
    PriceMath.apply_factors PriceMath.signed_shift_right
tick_index_to_sqrt_price_x64_test = refl

tick_index_to_sqrt_price_x64-side_example :
    (p : ℕ) × (PriceMath.tick_index_to_sqrt_price_x64 bn_bits (pos 100) ≡ ok (pos p))
    × (0 < p)
    × (p < 2 ^ 127)
    × (2 ^ 64 ≤ p)
tick_index_to_sqrt_price_x64-side_example = tick_index_to_sqrt_price_x64-side bn_bits (pos 100)

new_test :
    TickArraySequence.new (record { address = 7; account_data = some array } ∷ []) 64 true
    ≡ ok (sequence false)
unfolding TickArraySequence.new TickArraySequence.new_from TickArraySequence.initialized_prefix
    TickArrayIndex.from_tick_index TickArrayIndex.new
new_test = refl

new-IsWellFormed_example :
    IsWellFormed (sequence false)
    × (TickArraySequence.get_num_of_touched_arrays (sequence false) ≡ 0)
    × (0 < 1)
new-IsWellFormed_example =
    new-IsWellFormed (record { address = 7; account_data = some array } ∷ []) 64 true
      (sequence false) new_test

get_tick_test :
    TickArraySequence.get_tick (sequence false) (pos 64)
    ≡ ok (some (tick true (pos 400000000)), sequence true)
unfolding TickArraySequence.get_tick TickArrayIndex.from_tick_index TickArrayIndex.new
    TickArraySequence.is_array_index_in_bounds TickArraySequence.get_local_array_index
    TickArraySequence.check_if_index_is_in_tick_array_range
get_tick_test = refl

get_tick-IsWellFormed_example :
    IsWellFormed (sequence true)
    × (TickArraySequence.get_num_of_touched_arrays (sequence true)
        ≤ suc (TickArraySequence.get_num_of_touched_arrays (sequence false)))
    × (0 < TickArraySequence.get_num_of_touched_arrays (sequence true))
get_tick-IsWellFormed_example =
    get_tick-IsWellFormed (sequence false) (sequence true) (pos 64)
      (some (tick true (pos 400000000))) get_tick_test refl

length-get_touched_arrays_example :
    ((TickArraySequence.get_num_of_touched_arrays (sequence true) ≡ 0)
      × (TickArraySequence.get_touched_arrays (sequence true) 3 ≡ []))
    ⊎ ((0 < TickArraySequence.get_num_of_touched_arrays (sequence true))
        × (length (TickArraySequence.get_touched_arrays (sequence true) 3)
            ≡ max 3 (TickArraySequence.get_num_of_touched_arrays (sequence true))))
length-get_touched_arrays_example = length-get_touched_arrays (sequence true) 3 refl

calculate_fees-no_protocol_fee_example :
    SwapManager.calculate_fees (pos 6001) 300 (pos 1000000000) (pos 0) (pos 0)
    ≡ ok (fees_of 0 (0 + 6001 * 2 ^ 64 / 1000000000))
calculate_fees-no_protocol_fee_example =
    calculate_fees-no_protocol_fee 6001 300 1000000000 0 (omega arith) (omega arith)

-- The same swap under a slippage of one percent.
swap_quote_with_params-simulate_swap_example :
    (t : ℕ) × (swap_quote_with_params math_util bn_bits spl_token 5 param (percentage 1 100)
      ≡ ok (quote, amounts (pos 2000000) (pos t)))
    × (simulate_swap math_util bn_bits spl_token 5 (with_threshold param (pos t)) ≡ ok quote)
swap_quote_with_params-simulate_swap_example =
    swap_quote_with_params-simulate_swap math_util bn_bits spl_token 5 param quote 2000000 2009930 1
      100 simulate_swap_test refl refl (omega arith)
