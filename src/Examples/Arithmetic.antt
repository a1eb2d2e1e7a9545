-- ===== src/Examples/Arithmetic.antt =====
-- The arithmetic of a step, on concrete numbers.
use solana_dex_v.Prelude.{
  ℕ, ◌+◌, ◌*◌, ◌/◌, ◌^◌, ◌≤◌, min, max, ◌≡◌, ◌⊎◌, refl, pos, negsuc, true, false, ok, arith,
}
use solana_dex_v.Sdk.{IsCeil}
use solana_dex_v.Examples.Packages.{math_util}
use solana_dex_v.Math.BitMath
use solana_dex_v.Math.TokenMath
use solana_dex_v.Math.SwapMath.{SwapStep, compute_swap_step}
use solana_dex_v.Math.SwapMath
use solana_dex_v.Math.BitMath.Rounding.{
  MulDivCases, mul_div_round_up_if-cases, checked_mul_shift_right-ok,
  checked_mul_shift_right-not-IsCeil,
}
use solana_dex_v.Math.SwapMath.Steps.{compute_swap_step-IsBetween}
use solana_dex_v.Math.SwapMath.Prices.{IsBetween}
use solana_dex_v.Math.SwapMath.Amounts.{
  Splits, compute_swap_step-Splits, compute_swap_step-Delivers,
}
use solana_dex_v.Math.SwapMath.RoundingError.{compute_swap_step_overcharges}

abbrev step : ℕ → ℕ → ℕ → ℕ → SwapStep
step i o p f = record {
  amount_in = pos i;
  amount_out = pos o;
  next_price = pos p;
  fee_amount = pos f;
}

abbrev liquidity : ℕ
liquidity = 1000000000

mul_div_round_up_if-cases_example :
    MulDivCases 7 5 2 true 128 (BitMath.mul_div_round_up_if (pos 7) (pos 5) (pos 2) true 128)
mul_div_round_up_if-cases_example = mul_div_round_up_if-cases 7 5 2 128 true

-- An exact product of 2 is rounded up to 3, and a product of 3/4 is not rounded up.
shift_test :
    (BitMath.checked_mul_shift_right_round_up_if math_util (pos 2) (pos (2 ^ 64)) true 128
      ≡ ok (pos 3))
    × (BitMath.checked_mul_shift_right_round_up_if math_util (pos 3) (pos (2 ^ 62)) true 128
        ≡ ok (pos 0))
unfolding BitMath.checked_mul_shift_right_round_up_if BitMath.mul BitMath.is_over_limit
shift_test = (refl, refl)

checked_mul_shift_right-ok_example :
    (m : ℕ) × (pos 3 ≡ pos m) × (2 * 2 ^ 64 / 2 ^ 64 ≤ m) × (m ≤ 2 * 2 ^ 64 / 2 ^ 64 + 1)
checked_mul_shift_right-ok_example =
    checked_mul_shift_right-ok math_util 2 (2 ^ 64) 128 true shift_test.0

checked_mul_shift_right-not-IsCeil_example :
    (BitMath.checked_mul_shift_right_round_up_if math_util (pos 2) (pos (2 ^ 64)) true 128
      ≡ ok (pos (2 * 2 ^ 64 / 2 ^ 64 + 1)))
    × IsCeil (2 * 2 ^ 64 / 2 ^ 64) (2 * 2 ^ 64) (2 ^ 64)
    × (¬ IsCeil (2 * 2 ^ 64 / 2 ^ 64 + 1) (2 * 2 ^ 64) (2 ^ 64))
checked_mul_shift_right-not-IsCeil_example =
    (checked_mul_shift_right-not-IsCeil math_util 2 (2 ^ 64) 128 (omega arith) (omega arith)
        (omega arith)).1
      refl (omega arith) (omega arith)

-- 1000 of token A in, at a rate of 3000 parts in a million.
input_test :
    compute_swap_step math_util
      (pos 1000)
      3000
      (pos liquidity)
      (pos (2 ^ 64))
      (pos 18446000000000000000)
      true
      true
    ≡ ok (step 997 996 18446725682324046339 3)
unfolding compute_swap_step BitMath.checked_mul_shift_right_round_up_if BitMath.div_round_up
    BitMath.div_round_up_if BitMath.is_over_limit BitMath.mul BitMath.mul_div
    BitMath.mul_div_round_up BitMath.mul_div_round_up_if SwapMath.get_amount_calc
    SwapMath.get_amount_fixed_delta SwapMath.get_amount_unfixed_delta SwapMath.get_fee_amount
    TokenMath.get_amount_delta_a TokenMath.get_amount_delta_b TokenMath.get_next_sqrt_price
    TokenMath.get_next_sqrt_price_from_a_round_up TokenMath.get_next_sqrt_price_from_b_round_down
    TokenMath.to_increasing_price_order
input_test = refl

compute_swap_step-Splits_example :
    Splits 1000 3000 18446000000000000000 (step 997 996 18446725682324046339 3)
compute_swap_step-Splits_example =
    compute_swap_step-Splits math_util 1000 3000 liquidity (2 ^ 64) 18446000000000000000
      (omega arith) (omega arith) (omega arith) (omega arith) (step 997 996 18446725682324046339 3)
      (omega arith) input_test

compute_swap_step-IsBetween_example :
    IsBetween
      (min (2 ^ 64) 18446000000000000000)
      (max (2 ^ 64) 18446000000000000000)
      (pos 18446725682324046339)
compute_swap_step-IsBetween_example =
    compute_swap_step-IsBetween math_util 1000 3000 liquidity (2 ^ 64) 18446000000000000000 true
      true (step 997 996 18446725682324046339 3) (omega arith) (omega arith) (omega arith)
      (omega arith) (omega arith) input_test

-- 1000 of token A out, for token B.
output_test :
    compute_swap_step math_util
      (pos 1000)
      3000
      (pos liquidity)
      (pos (2 ^ 64))
      (pos 18447000000000000000)
      false
      false
    ≡ ok (step 1001 1000 18446762520472072089 4)
unfolding compute_swap_step BitMath.checked_mul_shift_right_round_up_if BitMath.div_round_up
    BitMath.div_round_up_if BitMath.is_over_limit BitMath.mul BitMath.mul_div
    BitMath.mul_div_round_up BitMath.mul_div_round_up_if SwapMath.get_amount_calc
    SwapMath.get_amount_fixed_delta SwapMath.get_amount_unfixed_delta SwapMath.get_fee_amount
    TokenMath.get_amount_delta_a TokenMath.get_amount_delta_b TokenMath.get_next_sqrt_price
    TokenMath.get_next_sqrt_price_from_a_round_up TokenMath.get_next_sqrt_price_from_b_round_down
    TokenMath.to_increasing_price_order
output_test = refl

compute_swap_step-Delivers_example :
    (o : ℕ) × (pos 1000 ≡ pos o)
    × (o ≤ 1000)
    × ((pos 18446762520472072089 ≡ pos 18447000000000000000) ⊎ (o ≡ 1000))
compute_swap_step-Delivers_example =
    compute_swap_step-Delivers math_util 1000 3000 liquidity (2 ^ 64) 18447000000000000000
      (omega arith) (omega arith) (omega arith) (omega arith)
      (step 1001 1000 18446762520472072089 4) false (omega arith) output_test

abbrev overcharged_step : SwapStep
overcharged_step = record {
  amount_in = pos 6;
  amount_out = pos 4;
  next_price = pos 18446744073709551621;
  fee_amount = negsuc 0;
}

-- 5 of token B in, of which the step charges 6.
overcharge_test :
    compute_swap_step math_util
      (pos 5)
      0
      (pos (2 ^ 64))
      (pos (2 ^ 64))
      (pos (2 ^ 64 + 10))
      true
      false
    ≡ ok overcharged_step
unfolding compute_swap_step BitMath.checked_mul_shift_right_round_up_if BitMath.div_round_up
    BitMath.div_round_up_if BitMath.is_over_limit BitMath.mul BitMath.mul_div
    BitMath.mul_div_round_up BitMath.mul_div_round_up_if SwapMath.get_amount_calc
    SwapMath.get_amount_fixed_delta SwapMath.get_amount_unfixed_delta SwapMath.get_fee_amount
    TokenMath.get_amount_delta_a TokenMath.get_amount_delta_b TokenMath.get_next_sqrt_price
    TokenMath.get_next_sqrt_price_from_a_round_up TokenMath.get_next_sqrt_price_from_b_round_down
    TokenMath.to_increasing_price_order
overcharge_test = refl

compute_swap_step_overcharges_example :
    (pos 18446744073709551621 ≡ pos (2 ^ 64 + 5)) × (pos 6 ≡ pos (5 + 1)) × (negsuc 0 ≡ negsuc 0)
compute_swap_step_overcharges_example =
    compute_swap_step_overcharges math_util (2 ^ 64) 10 5 (omega arith) (omega arith) (omega arith)
      (omega arith) overcharged_step overcharge_test
