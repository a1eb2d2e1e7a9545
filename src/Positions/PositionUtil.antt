-- ===== src/Positions/PositionUtil.antt =====
-- sdk/src/utils/position-util.ts and utils/swap-utils.ts: the status of a position, and amounts,
-- liquidity and prices without the checks of widths that utils/math makes.
pub mod Amounts
use solana_dex_v.Prelude.{
  ℤ, pos, ◌+ℤ◌, ◌-ℤ◌, ◌*ℤ◌, ltb_ℤ, leb_ℤ, Bool, true, false, not, beq, Result, ok, ◌>>=◌,
  if◌then◌else◌,
}
use solana_dex_v.Bn.{div, shln, shrn}
use solana_dex_v.Sdk.{MathUtil, Percentage}
use solana_dex_v.Price.PriceMath.{BnBits, tick_index_to_sqrt_price_x64}

pub data SwapDirection : Type 0 where
  a_to_b b_to_a : SwapDirection

pub data AmountSpecified : Type 0 where
  input output : AmountSpecified

pub data PositionStatus : Type 0 where
  below_range in_range above_range : PositionStatus

unfoldable pub get_position_status : ℤ → ℤ → ℤ → PositionStatus
get_position_status tick_current_index tick_lower_index tick_upper_index =
    if ltb_ℤ tick_current_index tick_lower_index
    then below_range
    else if ltb_ℤ tick_current_index tick_upper_index
    then in_range
    else above_range

unfoldable pub get_strict_position_status : BnBits → ℤ → ℤ → ℤ → Result PositionStatus
get_strict_position_status bits sqrt_price_x64 tick_lower_index tick_upper_index = do
  lower ← tick_index_to_sqrt_price_x64 bits tick_lower_index
  upper ← tick_index_to_sqrt_price_x64 bits tick_upper_index
  ok (
      if leb_ℤ sqrt_price_x64 lower
      then below_range
      else if leb_ℤ upper sqrt_price_x64
      then above_range
      else in_range)

unfoldable pub adjust_for_slippage : ℤ → Percentage → Bool → Result ℤ
adjust_for_slippage n slippage adjust_up =
    if adjust_up
    then div (n *ℤ (slippage.denominator +ℤ slippage.numerator)) slippage.denominator
    else div (n *ℤ slippage.denominator) (slippage.denominator +ℤ slippage.numerator)

unfoldable pub adjust_amount_for_slippage : ℤ → ℤ → Percentage → AmountSpecified → Result ℤ
adjust_amount_for_slippage amount_in amount_out slippage input =
    div (amount_out *ℤ slippage.denominator) (slippage.denominator +ℤ slippage.numerator)
adjust_amount_for_slippage amount_in amount_out slippage output =
    div (amount_in *ℤ (slippage.denominator +ℤ slippage.numerator)) slippage.denominator

unfoldable pub order_sqrt_price : ℤ → ℤ → ℤ × ℤ
order_sqrt_price sqrt_price0_x64 sqrt_price1_x64 =
    if ltb_ℤ sqrt_price0_x64 sqrt_price1_x64
    then (sqrt_price0_x64, sqrt_price1_x64)
    else (sqrt_price1_x64, sqrt_price0_x64)

abbrev pub is_input : AmountSpecified → Bool
is_input input = true
is_input output = false

abbrev pub is_a_to_b : SwapDirection → Bool
is_a_to_b a_to_b = true
is_a_to_b b_to_a = false

module _ (math : MathUtil) where
  unfoldable pub get_liquidity_from_token_a : ℤ → ℤ → ℤ → Bool → Result ℤ
  get_liquidity_from_token_a amount sqrt_price_lower_x64 sqrt_price_upper_x64 round_up = do
    result ←
        div (amount *ℤ sqrt_price_lower_x64 *ℤ sqrt_price_upper_x64)
          (sqrt_price_upper_x64 -ℤ sqrt_price_lower_x64)
    if round_up then ok (math.shift_right_round_up result) else shrn result 64

  unfoldable pub get_liquidity_from_token_b : ℤ → ℤ → ℤ → Bool → Result ℤ
  get_liquidity_from_token_b amount sqrt_price_lower_x64 sqrt_price_upper_x64 round_up = do
    numerator ← shln amount 64
    let denominator = sqrt_price_upper_x64 -ℤ sqrt_price_lower_x64
    if round_up then math.div_round_up numerator denominator else div numerator denominator

  unfoldable pub get_token_a_from_liquidity : ℤ → ℤ → ℤ → Bool → Result ℤ
  get_token_a_from_liquidity liquidity sqrt_price0_x64 sqrt_price1_x64 round_up = do
    let order = order_sqrt_price sqrt_price0_x64 sqrt_price1_x64
    numerator ← shln (liquidity *ℤ (order.1 -ℤ order.0)) 64
    let denominator = order.1 *ℤ order.0
    if round_up then math.div_round_up numerator denominator else div numerator denominator

  unfoldable pub get_token_b_from_liquidity : ℤ → ℤ → ℤ → Bool → Result ℤ
  get_token_b_from_liquidity liquidity sqrt_price0_x64 sqrt_price1_x64 round_up =
      let order = order_sqrt_price sqrt_price0_x64 sqrt_price1_x64 in
      let result = liquidity *ℤ (order.1 -ℤ order.0) in
      if round_up then ok (math.shift_right_round_up result) else shrn result 64

  unfoldable pub get_amount_fixed_delta : ℤ → ℤ → ℤ → AmountSpecified → SwapDirection → Result ℤ
  get_amount_fixed_delta current_sqrt_price_x64 target_sqrt_price_x64 liquidity amount_specified
        swap_direction =
      if beq (is_input amount_specified) (is_a_to_b swap_direction)
      then get_token_a_from_liquidity liquidity current_sqrt_price_x64 target_sqrt_price_x64
          (is_input amount_specified)
      else get_token_b_from_liquidity liquidity current_sqrt_price_x64 target_sqrt_price_x64
          (is_input amount_specified)

  unfoldable pub get_amount_unfixed_delta : ℤ → ℤ → ℤ → AmountSpecified → SwapDirection → Result ℤ
  get_amount_unfixed_delta current_sqrt_price_x64 target_sqrt_price_x64 liquidity amount_specified
        swap_direction =
      if beq (is_input amount_specified) (is_a_to_b swap_direction)
      then get_token_b_from_liquidity liquidity current_sqrt_price_x64 target_sqrt_price_x64
          (not (is_input amount_specified))
      else get_token_a_from_liquidity liquidity current_sqrt_price_x64 target_sqrt_price_x64
          (not (is_input amount_specified))

  -- utils/swap-utils.ts
  unfoldable pub get_lower_sqrt_price_from_token_a : ℤ → ℤ → ℤ → Result ℤ
  get_lower_sqrt_price_from_token_a amount liquidity sqrt_price_x64 = do
    numerator ← shln (liquidity *ℤ sqrt_price_x64) 64
    shifted ← shln liquidity 64
    math.div_round_up numerator (shifted +ℤ amount *ℤ sqrt_price_x64)

  unfoldable pub get_upper_sqrt_price_from_token_a : ℤ → ℤ → ℤ → Result ℤ
  get_upper_sqrt_price_from_token_a amount liquidity sqrt_price_x64 = do
    numerator ← shln (liquidity *ℤ sqrt_price_x64) 64
    shifted ← shln liquidity 64
    math.div_round_up numerator (shifted -ℤ amount *ℤ sqrt_price_x64)

  unfoldable pub get_lower_sqrt_price_from_token_b : ℤ → ℤ → ℤ → Result ℤ
  get_lower_sqrt_price_from_token_b amount liquidity sqrt_price_x64 = do
    shifted ← shln amount 64
    delta ← math.div_round_up shifted liquidity
    ok (sqrt_price_x64 -ℤ delta)

  unfoldable pub get_upper_sqrt_price_from_token_b : ℤ → ℤ → ℤ → Result ℤ
  get_upper_sqrt_price_from_token_b amount liquidity sqrt_price_x64 = do
    shifted ← shln amount 64
    delta ← div shifted liquidity
    ok (sqrt_price_x64 +ℤ delta)

  unfoldable pub get_next_sqrt_price : ℤ → ℤ → ℤ → AmountSpecified → SwapDirection → Result ℤ
  get_next_sqrt_price sqrt_price_x64 liquidity amount input a_to_b =
      get_lower_sqrt_price_from_token_a amount liquidity sqrt_price_x64
  get_next_sqrt_price sqrt_price_x64 liquidity amount output b_to_a =
      get_upper_sqrt_price_from_token_a amount liquidity sqrt_price_x64
  get_next_sqrt_price sqrt_price_x64 liquidity amount input b_to_a =
      get_upper_sqrt_price_from_token_b amount liquidity sqrt_price_x64
  get_next_sqrt_price sqrt_price_x64 liquidity amount output a_to_b =
      get_lower_sqrt_price_from_token_b amount liquidity sqrt_price_x64
