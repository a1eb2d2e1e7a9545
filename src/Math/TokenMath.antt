-- ===== src/Math/TokenMath.antt =====
-- sdk/src/utils/math/token-math.ts: the amounts between two prices, and the price after an amount.
pub mod Deltas
pub mod NextPrice
use solana_dex_v.Prelude.{
  ℤ, pos, ◌+ℤ◌, ◌-ℤ◌, ◌*ℤ◌, ltb_ℤ, leb_ℤ, eq_ℤ, Bool, not, ◌&&◌, beq, Result, ok,
  multiplication_overflow, divide_by_zero, token_max_exceeded, token_min_subceeded, ◌>>=◌, ◌>>◌,
  throw_if, if◌then◌else◌,
}
use solana_dex_v.Bn.{div, modulo, shln, u64_max}
use solana_dex_v.Sdk.{MathUtil, Percentage}
use solana_dex_v.Types.{min_sqrt_price, max_sqrt_price}
use solana_dex_v.Math.BitMath.{
  is_over_limit, mul, div_round_up, div_round_up_if, checked_mul_shift_right_round_up_if,
}

unfoldable pub to_increasing_price_order : ℤ → ℤ → ℤ × ℤ
to_increasing_price_order sqrt_price0 sqrt_price1 =
    if ltb_ℤ sqrt_price1 sqrt_price0 then (sqrt_price1, sqrt_price0) else (sqrt_price0, sqrt_price1)

unfoldable pub get_amount_delta_a : ℤ → ℤ → ℤ → Bool → Result ℤ
get_amount_delta_a curr_sqrt_price target_sqrt_price curr_liquidity round_up = do
  let order = to_increasing_price_order curr_sqrt_price target_sqrt_price
  let sqrt_price_diff = order.1 -ℤ order.0
  numerator ← shln (curr_liquidity *ℤ sqrt_price_diff) 64
  let denominator = order.0 *ℤ order.1
  quotient ← div numerator denominator
  remainder ← modulo numerator denominator
  let result = if round_up && not (eq_ℤ remainder (pos 0)) then quotient +ℤ pos 1 else quotient
  throw_if (ltb_ℤ u64_max result) token_max_exceeded
  ok result

unfoldable pub get_next_sqrt_price_from_a_round_up : ℤ → ℤ → ℤ → Bool → Result ℤ
get_next_sqrt_price_from_a_round_up sqrt_price curr_liquidity amount amount_specified_is_input =
    if eq_ℤ amount (pos 0) then ok sqrt_price else do
      p ← mul sqrt_price amount 256
      product ← mul curr_liquidity sqrt_price 256
      numerator ← shln product 64
      throw_if (is_over_limit numerator 256) multiplication_overflow
      curr_liquidity_shift_left ← shln curr_liquidity 64
      throw_if (not amount_specified_is_input && leb_ℤ curr_liquidity_shift_left p) divide_by_zero
      let denominator =
          if amount_specified_is_input
          then curr_liquidity_shift_left +ℤ p
          else curr_liquidity_shift_left -ℤ p
      price ← div_round_up numerator denominator
      throw_if (ltb_ℤ price min_sqrt_price) token_min_subceeded
      throw_if (ltb_ℤ max_sqrt_price price) token_max_exceeded
      ok price

unfoldable pub get_next_sqrt_price_from_b_round_down : ℤ → ℤ → ℤ → Bool → Result ℤ
get_next_sqrt_price_from_b_round_down sqrt_price curr_liquidity amount amount_specified_is_input =
    do
      amount_x64 ← shln amount 64
      delta ← div_round_up_if amount_x64 curr_liquidity (not amount_specified_is_input)
      ok (if amount_specified_is_input then sqrt_price +ℤ delta else sqrt_price -ℤ delta)

unfoldable pub get_next_sqrt_price : ℤ → ℤ → ℤ → Bool → Bool → Result ℤ
get_next_sqrt_price sqrt_price curr_liquidity amount amount_specified_is_input a_to_b =
    if beq amount_specified_is_input a_to_b
    then get_next_sqrt_price_from_a_round_up sqrt_price curr_liquidity amount
        amount_specified_is_input
    else get_next_sqrt_price_from_b_round_down sqrt_price curr_liquidity amount
        amount_specified_is_input

unfoldable pub adjust_for_slippage : ℤ → Percentage → Bool → Result ℤ
adjust_for_slippage n slippage adjust_up =
    if adjust_up
    then div (n *ℤ (slippage.denominator +ℤ slippage.numerator)) slippage.denominator
    else div (n *ℤ slippage.denominator) (slippage.denominator +ℤ slippage.numerator)

module _ (math : MathUtil) where
  unfoldable pub get_amount_delta_b : ℤ → ℤ → ℤ → Bool → Result ℤ
  get_amount_delta_b curr_sqrt_price target_sqrt_price curr_liquidity round_up =
      let order = to_increasing_price_order curr_sqrt_price target_sqrt_price in
      let sqrt_price_diff = order.1 -ℤ order.0 in
      checked_mul_shift_right_round_up_if math curr_liquidity sqrt_price_diff round_up 128
