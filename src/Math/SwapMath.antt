-- ===== src/Math/SwapMath.antt =====
-- sdk/src/utils/math/swap-math.ts: one step of a swap, inside a range of constant liquidity.
pub mod Run
pub mod Prices
pub mod Steps
pub mod Amounts
pub mod RoundingError
use solana_dex_v.Prelude.{
  ℕ, ℤ, pos, ◌-ℤ◌, ltb_ℤ, leb_ℤ, eq_ℤ, Bool, not, ◌&&◌, beq, Result, ok, ◌>>=◌, if◌then◌else◌,
}
use solana_dex_v.Sdk.{MathUtil}
use solana_dex_v.Types.{fee_rate_mul_value}
use solana_dex_v.Math.BitMath.{mul_div, mul_div_round_up}
use solana_dex_v.Math.TokenMath.{get_amount_delta_a, get_amount_delta_b, get_next_sqrt_price}

pub record SwapStep : Type 0 where
  pub amount_in : ℤ
  pub amount_out : ℤ
  pub next_price : ℤ
  pub fee_amount : ℤ

-- The fee of a step: what is left of an input that does not reach the target, else the rate's part.
unfoldable pub get_fee_amount : ℤ → ℕ → ℤ → Bool → Bool → Result ℤ
get_fee_amount amount_remaining fee_rate amount_in is_input is_max_swap =
    if is_input && not is_max_swap
    then ok (amount_remaining -ℤ amount_in)
    else mul_div_round_up amount_in (pos fee_rate) (fee_rate_mul_value -ℤ pos fee_rate) 128

-- The amount that moves the price: an input without its fee, or the whole output.
unfoldable pub get_amount_calc : ℤ → ℕ → Bool → Result ℤ
get_amount_calc amount_remaining fee_rate is_input =
    if is_input
    then mul_div amount_remaining (fee_rate_mul_value -ℤ pos fee_rate) fee_rate_mul_value 128
    else ok amount_remaining

module _ (math : MathUtil) where
  unfoldable pub get_amount_fixed_delta : ℤ → ℤ → ℤ → Bool → Bool → Result ℤ
  get_amount_fixed_delta curr_sqrt_price target_sqrt_price curr_liquidity is_input a_to_b =
      if beq a_to_b is_input
      then get_amount_delta_a curr_sqrt_price target_sqrt_price curr_liquidity is_input
      else get_amount_delta_b math curr_sqrt_price target_sqrt_price curr_liquidity is_input

  unfoldable pub get_amount_unfixed_delta : ℤ → ℤ → ℤ → Bool → Bool → Result ℤ
  get_amount_unfixed_delta curr_sqrt_price target_sqrt_price curr_liquidity is_input a_to_b =
      if beq a_to_b is_input
      then get_amount_delta_b math curr_sqrt_price target_sqrt_price curr_liquidity (not is_input)
      else get_amount_delta_a curr_sqrt_price target_sqrt_price curr_liquidity (not is_input)

  unfoldable pub compute_swap_step : ℤ → ℕ → ℤ → ℤ → ℤ → Bool → Bool → Result SwapStep
  compute_swap_step amount_remaining fee_rate curr_liquidity curr_sqrt_price target_sqrt_price
        is_input a_to_b =
      do
        initial_fixed_delta ←
            get_amount_fixed_delta curr_sqrt_price target_sqrt_price curr_liquidity is_input a_to_b
        amount_calc ← get_amount_calc amount_remaining fee_rate is_input
        next_sqrt_price ←
            if leb_ℤ initial_fixed_delta amount_calc
            then ok target_sqrt_price
            else get_next_sqrt_price curr_sqrt_price curr_liquidity amount_calc is_input a_to_b
        let is_max_swap = eq_ℤ next_sqrt_price target_sqrt_price
        amount_unfixed_delta ←
            get_amount_unfixed_delta curr_sqrt_price next_sqrt_price curr_liquidity is_input a_to_b
        amount_fixed_delta ←
            if is_max_swap
            then ok initial_fixed_delta
            else get_amount_fixed_delta curr_sqrt_price next_sqrt_price curr_liquidity is_input
                a_to_b
        let amount_in = if is_input then amount_fixed_delta else amount_unfixed_delta
        let uncapped_out = if is_input then amount_unfixed_delta else amount_fixed_delta
        let amount_out =
            if not is_input && ltb_ℤ amount_remaining uncapped_out
            then amount_remaining
            else uncapped_out
        fee_amount ← get_fee_amount amount_remaining fee_rate amount_in is_input is_max_swap
        ok (record {
          amount_in = amount_in;
          amount_out = amount_out;
          next_price = next_sqrt_price;
          fee_amount = fee_amount;
        })
