-- ===== src/Examples/Collecting.antt =====
-- What a position collects, on a concrete pool.
use solana_dex_v.Prelude.{
  ◌≤ℤ◌, negsuc, ℕ, ◌+◌, ◌^◌, ◌%◌, ◌<◌, ◌≡◌, ◌==◌, refl, pos, ◌+ℤ◌, Bool, true, false, Option, none,
  some, [], ◌∷◌, ok, arith,
}
use solana_dex_v.Sdk.{TransferFee}
use solana_dex_v.Types.{
  TickData, PoolData, PositionData, PositionRewardInfoData, WhirlpoolRewardInfoData,
}
use solana_dex_v.Examples.Packages.{math_util, bn_bits, spl_token, one_percent}
use solana_dex_v.Math.BitMath
use solana_dex_v.Tokens.TransferFees
use solana_dex_v.Tokens.TransferFees.{TransferFeeAmount, TokenExtensionContext, amount_and_fee}
use solana_dex_v.Quotes.CollectFees.{
  CollectFeesQuote, collect_fees_quote, fee_growth_inside, fee_owed_delta,
}
use solana_dex_v.Quotes.CollectFees.Owed.{IsInside, added, collect_fees_quote_pays}
use solana_dex_v.Ticks.TickUtil.{check_tick_in_bounds}
use solana_dex_v.Quotes.DecreaseLiquidity.{
  DecreaseLiquidityQuote, decrease_liquidity_quote_by_liquidity_with_params,
  get_token_estimates_from_liquidity,
}
use solana_dex_v.Quotes.DecreaseLiquidity.Minimums.{
  min_a, min_b, est_a, est_b, withdrawal, decrease_liquidity_quote_pays,
}
use solana_dex_v.Quotes.CollectRewards
use solana_dex_v.Quotes.CollectRewards.{collect_rewards_quote, reward_growth_inside, amount_owed}
use solana_dex_v.Quotes.CollectRewards.Inside.{below_of, above_of, reward_growth_inside-Splits}

abbrev tick : Bool → ℕ → TickData
tick on growth = record {
  initialized = on;
  liquidity_net = pos 0;
  liquidity_gross = pos 0;
  fee_growth_outside_a = pos growth;
  fee_growth_outside_b = pos growth;
  reward_growths_outside = pos growth ∷ pos 0 ∷ pos 0 ∷ [];
}

abbrev reward : ℕ → WhirlpoolRewardInfoData ℕ
reward mint = record {
  mint = mint;
  vault = mint;
  emissions_per_second_x64 = pos (2 ^ 64);
  growth_global_x64 = pos 1000;
}

abbrev pool : PoolData ℕ
pool = record {
  fee_rate = 3000;
  protocol_fee_rate = 300;
  liquidity = pos (2 ^ 64);
  sqrt_price = pos (2 ^ 64);
  tick_current_index = pos 5;
  token_mint_a = 1;
  token_vault_a = 21;
  fee_growth_global_a = pos 1000;
  token_mint_b = 2;
  token_vault_b = 22;
  fee_growth_global_b = pos 500;
  reward_last_updated_timestamp = pos 60;
  reward_infos = reward 9 ∷ reward 0 ∷ reward 0 ∷ [];
  tick_spacing = 8;
}

abbrev reward_position : ℕ → PositionRewardInfoData
reward_position owed = record { growth_inside_checkpoint = pos 0; amount_owed = pos owed }

abbrev position : PositionData
position = record {
  liquidity = pos (2 ^ 64);
  tick_lower_index = pos 0;
  tick_upper_index = pos 8;
  fee_growth_checkpoint_a = pos 100;
  fee_owed_a = pos 10;
  fee_growth_checkpoint_b = pos 50;
  fee_owed_b = pos 20;
  reward_infos = reward_position 7 ∷ reward_position 0 ∷ reward_position 0 ∷ [];
}

abbrev context : TokenExtensionContext (Option TransferFee)
context = record {
  current_epoch = 1;
  token_mint_a = some one_percent;
  token_mint_b = none;
  reward_token_mints = λ i. none;
}

-- 10 owed and 1000 - 30 - 40 - 100 of growth, less one percent.
collect_fees_quote_test :
    collect_fees_quote math_util spl_token pool position (tick true 30) (tick true 40) context
    ≡ ok (record {
      fee_owed_a = pos 831;
      fee_owed_b = pos 400;
      deducted_from_fee_owed_a = pos 9;
      deducted_from_fee_owed_b = pos 0;
    })
unfolding collect_fees_quote fee_growth_inside fee_owed_delta
    TransferFees.calculate_transfer_fee_excluded_amount TransferFees.exclude_fee
collect_fees_quote_test = refl

collect_fees_quote_pays_example :
    (q : CollectFeesQuote) × (a : ℕ) × (b : ℕ) × (collect_fees_quote math_util spl_token pool
        position
        (tick true 30)
        (tick true 40)
        context
      ≡ ok q)
    × IsInside (pos 5) (pos 0) (pos 8) 1000 30 40 a
    × IsInside (pos 5) (pos 0) (pos 8) 500 30 40 b
    × (q.fee_owed_a +ℤ q.deducted_from_fee_owed_a ≡ pos 10 +ℤ pos (added a 100 (2 ^ 64)))
    × (q.fee_owed_b +ℤ q.deducted_from_fee_owed_b ≡ pos 20 +ℤ pos (added b 50 (2 ^ 64)))
collect_fees_quote_pays_example =
    collect_fees_quote_pays math_util spl_token pool position (tick true 30) (tick true 40) context
      (1000, refl, omega arith) (500, refl, omega arith) (30, refl, omega arith)
      (30, refl, omega arith) (40, refl, omega arith) (40, refl, omega arith)
      (100, refl, omega arith) (50, refl, omega arith) (2 ^ 64, refl, omega arith)

-- 40 seconds at one a second over the liquidity: of the growth, 1040, the position has 970. The other
-- rewards are not initialized.
collect_rewards_quote_test :
    collect_rewards_quote math_util spl_token
      (λ key. key == 0)
      pool
      position
      (tick true 30)
      (tick true 40)
      (pos 100)
      context
    ≡ ok (some (amount_and_fee (pos 977) (pos 0)) ∷ none ∷ none ∷ [])
unfolding collect_rewards_quote CollectRewards.reward_quotes_from CollectRewards.reward_quote_at
    CollectRewards.is_reward_initialized CollectRewards.reward_quote
    CollectRewards.adjusted_growth_global BitMath.mul_div BitMath.mul_div_round_up_if BitMath.mul
    BitMath.is_over_limit amount_owed reward_growth_inside
    TransferFees.calculate_transfer_fee_excluded_amount
collect_rewards_quote_test = refl

reward_growth_inside-Splits_example :
    (inside : ℕ) × (reward_growth_inside math_util
        (pos 5)
        (pos 0)
        (pos 8)
        (pos 100)
        false
        (pos 30)
        true
        (pos 20)
      ≡ pos inside)
    × (inside < 2 ^ 128)
    × ((inside + below_of false false 100 30 + above_of true true 100 20) % 2 ^ 128 ≡ 100)
reward_growth_inside-Splits_example =
    reward_growth_inside-Splits math_util (pos 5) (pos 0) (pos 8) 100 30 20 false true (omega arith)
      (omega arith) (omega arith)

in_bounds :
    (check_tick_in_bounds (negsuc 127) ≡ true)
    × (check_tick_in_bounds (pos 128) ≡ true)
    × (check_tick_in_bounds (pos 0) ≡ true)
unfolding check_tick_in_bounds
in_bounds = (refl, refl, refl)

-- A position around the price 1, under a slippage of one percent.
decrease_liquidity_quote_pays_example :
    (q : DecreaseLiquidityQuote) × (decrease_liquidity_quote_by_liquidity_with_params math_util
        bn_bits spl_token
        (withdrawal (10 ^ 9) (2 ^ 64) (negsuc 127) (pos 128) (pos 0) context 1 100)
      ≡ ok q)
    × (get_token_estimates_from_liquidity math_util bn_bits
          (pos (10 ^ 9))
          (negsuc 127)
          (pos 128)
          (pos (2 ^ 64))
        ≡ ok (est_a q, est_b q))
    × (min_a q ≤ℤ est_a q)
    × (min_b q ≤ℤ est_b q)
decrease_liquidity_quote_pays_example =
    decrease_liquidity_quote_pays math_util bn_bits spl_token (10 ^ 9) (2 ^ 64) (negsuc 127)
      (pos 128) (pos 0) context 1 100 (omega arith) (omega arith) (omega arith) in_bounds.0
      in_bounds.1 in_bounds.2
