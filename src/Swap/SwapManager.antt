-- ===== src/Swap/SwapManager.antt =====
-- sdk/src/quotes/swap/swap-manager.ts: a swap through the ticks of a sequence of arrays.
pub mod FeeSplit
pub mod Ledger
use solana_dex_v.Prelude.{
  ℕ, zero, suc, ltb, ℤ, pos, ◌+ℤ◌, ◌-ℤ◌, ◌*ℤ◌, ltb_ℤ, eq_ℤ, min_ℤ, max_ℤ, Bool, true, false, not,
  ◌&&◌, beq, Option, none, some, Result, ok, err, type_error, out_of_fuel, ◌>>=◌, if◌then◌else◌,
}
use solana_dex_v.Bn.{div, shln}
use solana_dex_v.Sdk.{MathUtil}
use solana_dex_v.Types.{TickData, PoolData, protocol_fee_rate_mul_value}
use solana_dex_v.Math.SwapMath.{SwapStep, compute_swap_step}
use solana_dex_v.Price.PriceMath.{
  BnBits, tick_index_to_sqrt_price_x64, sqrt_price_x64_to_tick_index,
}
use solana_dex_v.Ticks.TickArraySequence.{
  TickArraySequence, find_next_initialized_tick_index, get_tick, or_type_error,
}

pub record SwapResult : Type 0 where
  pub amount_a : ℤ
  pub amount_b : ℤ
  pub next_tick_index : ℤ
  pub next_sqrt_price : ℤ
  pub total_fee_amount : ℤ

-- The variables of the loop.
pub record SwapState (Key : Type 0) : Type 0 where
  pub amount_remaining : ℤ
  pub amount_calculated : ℤ
  pub curr_sqrt_price : ℤ
  pub curr_liquidity : ℤ
  pub curr_tick_index : ℤ
  pub total_fee_amount : ℤ
  pub curr_protocol_fee : ℤ
  pub curr_fee_growth_global_input : ℤ
  pub tick_sequence : TickArraySequence Key

pub record NextSqrtPrices : Type 0 where
  pub next_tick_price : ℤ
  pub next_sqrt_price_limit : ℤ

unfoldable pub get_next_sqrt_prices : BnBits → ℤ → ℤ → Bool → Result NextSqrtPrices
get_next_sqrt_prices bits next_tick sqrt_price_limit a_to_b = do
  next_tick_price ← tick_index_to_sqrt_price_x64 bits next_tick
  ok (record {
    next_tick_price = next_tick_price;
    next_sqrt_price_limit =
        if a_to_b
        then max_ℤ sqrt_price_limit next_tick_price
        else min_ℤ sqrt_price_limit next_tick_price;
  })

-- The rate is divided before the product.
unfoldable pub calculate_protocol_fee : ℤ → ℕ → Result ℤ
calculate_protocol_fee global_fee protocol_fee_rate = do
  rate ← div (pos protocol_fee_rate) protocol_fee_rate_mul_value
  ok (global_fee *ℤ rate)

pub record Fees : Type 0 where
  pub next_protocol_fee : ℤ
  pub next_fee_growth_global_input : ℤ

unfoldable pub calculate_fees : ℤ → ℕ → ℤ → ℤ → ℤ → Result Fees
calculate_fees fee_amount protocol_fee_rate curr_liquidity curr_protocol_fee
      curr_fee_growth_global_input =
    do
      delta ←
          if ltb 0 protocol_fee_rate
          then calculate_protocol_fee fee_amount protocol_fee_rate
          else ok (pos 0)
      let global_fee = fee_amount -ℤ delta
      let next_protocol_fee =
          if ltb 0 protocol_fee_rate
          then curr_protocol_fee +ℤ curr_protocol_fee
          else curr_protocol_fee
      growth ←
          if ltb_ℤ (pos 0) curr_liquidity
          then shln global_fee 64 >>= (λ shifted. div shifted curr_liquidity)
          else ok (pos 0)
      ok (record {
        next_protocol_fee = next_protocol_fee;
        next_fee_growth_global_input = curr_fee_growth_global_input +ℤ growth;
      })

unfoldable pub calculate_est_tokens : ℤ → ℤ → ℤ → Bool → Bool → ℤ × ℤ
calculate_est_tokens amount amount_remaining amount_calculated a_to_b is_input =
    if beq a_to_b is_input
    then (amount -ℤ amount_remaining, amount_calculated)
    else (amount_calculated, amount -ℤ amount_remaining)

unfoldable pub calculate_next_liquidity : ℤ → ℤ → Bool → ℤ
calculate_next_liquidity tick_net_liquidity curr_liquidity a_to_b =
    if a_to_b then curr_liquidity -ℤ tick_net_liquidity else curr_liquidity +ℤ tick_net_liquidity

-- The amounts after one step.
unfoldable pub next_remaining : Bool → ℤ → SwapStep → ℤ
next_remaining is_input amount_remaining step =
    if is_input
    then amount_remaining -ℤ step.amount_in -ℤ step.fee_amount
    else amount_remaining -ℤ step.amount_out

unfoldable pub next_calculated : Bool → ℤ → SwapStep → ℤ
next_calculated is_input amount_calculated step =
    if is_input
    then amount_calculated +ℤ step.amount_out
    else amount_calculated +ℤ step.amount_in +ℤ step.fee_amount

module _ {Key : Type 0} where
  abbrev pub initial_state : PoolData Key → TickArraySequence Key → ℤ → Bool → SwapState Key
  initial_state whirlpool_data tick_sequence token_amount a_to_b = record {
    amount_remaining = token_amount;
    amount_calculated = pos 0;
    curr_sqrt_price = whirlpool_data.sqrt_price;
    curr_liquidity = whirlpool_data.liquidity;
    curr_tick_index = whirlpool_data.tick_current_index;
    total_fee_amount = pos 0;
    curr_protocol_fee = pos 0;
    curr_fee_growth_global_input =
        if a_to_b then whirlpool_data.fee_growth_global_a else whirlpool_data.fee_growth_global_b;
    tick_sequence = tick_sequence;
  }

  unfoldable pub is_running : ℤ → SwapState Key → Bool
  is_running sqrt_price_limit s =
      ltb_ℤ (pos 0) s.amount_remaining && not (eq_ℤ sqrt_price_limit s.curr_sqrt_price)

module _ (math : MathUtil) (bits : BnBits) {Key : Type 0} where
  -- Where a step ends: the tick, the liquidity and the sequence, which a crossed tick changes.
  unfoldable pub land_on_tick :
      ℤ → ℤ → Bool → TickArraySequence Key → Result (ℤ × ℤ × TickArraySequence Key)
  land_on_tick curr_liquidity next_tick_index a_to_b tick_sequence = do
    r ← get_tick tick_sequence next_tick_index
    next_tick ← or_type_error r.0
    let liquidity =
        if next_tick.initialized
        then calculate_next_liquidity next_tick.liquidity_net curr_liquidity a_to_b
        else curr_liquidity
    ok (if a_to_b then next_tick_index -ℤ pos 1 else next_tick_index, liquidity, r.1)

  unfoldable pub land_between :
      ℤ → ℤ → TickArraySequence Key → Result (ℤ × ℤ × TickArraySequence Key)
  land_between curr_liquidity next_price tick_sequence = do
    tick ← sqrt_price_x64_to_tick_index bits next_price
    ok (tick, curr_liquidity, tick_sequence)

  unfoldable pub cross_tick :
      ℤ → ℤ → ℤ → ℤ → Bool → TickArraySequence Key → Result (ℤ × ℤ × TickArraySequence Key)
  cross_tick curr_liquidity next_price next_tick_index next_tick_price a_to_b tick_sequence =
      if eq_ℤ next_price next_tick_price
      then land_on_tick curr_liquidity next_tick_index a_to_b tick_sequence
      else land_between curr_liquidity next_price tick_sequence

  -- The body of the loop.
  unfoldable pub swap_iteration :
      PoolData Key → ℤ → Bool → Bool → SwapState Key → Result (SwapStep × SwapState Key)
  swap_iteration whirlpool_data sqrt_price_limit is_input a_to_b s = do
    found ← find_next_initialized_tick_index s.tick_sequence s.curr_tick_index
    let next_tick_index = found.0.next_index
    prices ← get_next_sqrt_prices bits next_tick_index sqrt_price_limit a_to_b
    step ←
        compute_swap_step math s.amount_remaining whirlpool_data.fee_rate s.curr_liquidity
          s.curr_sqrt_price prices.next_sqrt_price_limit is_input a_to_b
    fees ←
        calculate_fees step.fee_amount whirlpool_data.protocol_fee_rate s.curr_liquidity
          s.curr_protocol_fee s.curr_fee_growth_global_input
    crossed ←
        cross_tick s.curr_liquidity step.next_price next_tick_index prices.next_tick_price a_to_b
          found.1
    ok (
      step,
      record {
        amount_remaining = next_remaining is_input s.amount_remaining step;
        amount_calculated = next_calculated is_input s.amount_calculated step;
        curr_sqrt_price = step.next_price;
        curr_liquidity = crossed.1;
        curr_tick_index = crossed.0;
        total_fee_amount = s.total_fee_amount +ℤ step.fee_amount;
        curr_protocol_fee = fees.next_protocol_fee;
        curr_fee_growth_global_input = fees.next_fee_growth_global_input;
        tick_sequence = crossed.2;
      },
    )

  -- The loop, on fuel.
  unfoldable pub swap_loop :
      ℕ → PoolData Key → ℤ → Bool → Bool → SwapState Key → Result (SwapState Key)
  swap_loop zero whirlpool_data sqrt_price_limit is_input a_to_b s = err out_of_fuel
  swap_loop (suc fuel) whirlpool_data sqrt_price_limit is_input a_to_b s =
      elim (is_running sqrt_price_limit s) [
        | false ↦ ok s
        | true ↦ do
          r ← swap_iteration whirlpool_data sqrt_price_limit is_input a_to_b s
          swap_loop fuel whirlpool_data sqrt_price_limit is_input a_to_b r.1
      ]

  unfoldable pub compute_swap :
      ℕ
      → PoolData Key
      → TickArraySequence Key
      → ℤ
      → ℤ
      → Bool
      → Bool
      → Result (SwapResult × TickArraySequence Key)
  compute_swap fuel whirlpool_data tick_sequence token_amount sqrt_price_limit is_input a_to_b = do
    s ←
        swap_loop fuel whirlpool_data sqrt_price_limit is_input a_to_b
          (initial_state whirlpool_data tick_sequence token_amount a_to_b)
    let amounts =
        calculate_est_tokens token_amount s.amount_remaining s.amount_calculated a_to_b is_input
    ok (
      record {
        amount_a = amounts.0;
        amount_b = amounts.1;
        next_tick_index = s.curr_tick_index;
        next_sqrt_price = s.curr_sqrt_price;
        total_fee_amount = s.total_fee_amount;
      },
      s.tick_sequence,
    )
