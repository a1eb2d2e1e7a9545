-- ===== src/Quotes/CollectRewards.antt =====
-- sdk/src/quotes/public/collect-rewards-quote.ts: the rewards that a position is owed. The time is
-- given; without one, the code takes the clock's.
pub mod Inside
use solana_dex_v.Prelude.{
  ℕ, zero, suc, ℤ, pos, ◌+ℤ◌, ◌-ℤ◌, ◌*ℤ◌, ltb_ℤ, eq_ℤ, Bool, true, false, not, ◌&&◌, Option, none,
  some, List, [], ◌∷◌, get_elem?, Result, ok, err, invariant_failed, ◌>>=◌, if◌then◌else◌,
}
use solana_dex_v.Bn.{shln, shrn}
use solana_dex_v.Sdk.{MathUtil, SplToken}
use solana_dex_v.Types.{TickData, PoolData, PositionData, WhirlpoolRewardInfoData, num_rewards}
use solana_dex_v.Math.BitMath.{mul_div}
use solana_dex_v.Tokens.TransferFees.{
  TransferFeeAmount, TokenExtensionContext, calculate_transfer_fee_excluded_amount,
}
use solana_dex_v.Ticks.TickArraySequence.{or_type_error}

abbrev or_invariant {ℓ} : {A : Type ℓ} → Option A → Result A
or_invariant (some a) = ok a
or_invariant none = err invariant_failed

-- `PoolUtil.isRewardInitialized`: neither key is the default key.
unfoldable pub is_reward_initialized :
    {Key : Type 0} → (Key → Bool) → WhirlpoolRewardInfoData Key → Bool
is_reward_initialized is_default reward_info =
    not (is_default reward_info.mint) && not (is_default reward_info.vault)

-- The global growth of a reward at a time `timestamp_delta` after the last update.
unfoldable pub adjusted_growth_global : ℤ → ℤ → ℤ → ℤ → Result ℤ
adjusted_growth_global liquidity timestamp_delta emissions_per_second growth_global =
    if not (eq_ℤ liquidity (pos 0))
    then mul_div timestamp_delta emissions_per_second liquidity 128
      >>= (λ delta. ok (growth_global +ℤ delta))
    else ok growth_global

module _ (math : MathUtil) where
  unfoldable pub reward_growth_inside : ℤ → ℤ → ℤ → ℤ → Bool → ℤ → Bool → ℤ → ℤ
  reward_growth_inside tick_current_index tick_lower_index tick_upper_index global lower_initialized
        lower upper_initialized upper =
      let below =
        if lower_initialized
        then if ltb_ℤ tick_current_index tick_lower_index
          then math.sub_underflow_u128 global lower
          else lower
        else global in
      let above =
        if upper_initialized
        then if ltb_ℤ tick_current_index tick_upper_index
          then upper
          else math.sub_underflow_u128 global upper
        else pos 0 in
      math.sub_underflow_u128 (math.sub_underflow_u128 global below) above

  unfoldable pub amount_owed : ℤ → ℤ → ℤ → ℤ → Result ℤ
  amount_owed owed growth_inside checkpoint liquidity = do
    owed_x64 ← shln owed 64
    shrn (owed_x64 +ℤ math.sub_underflow_u128 growth_inside checkpoint *ℤ liquidity) 64

  module _ {Key Mint Config : Type 0} (spl : SplToken Mint Config) (is_default : Key → Bool) where
    -- The body of the loop for a reward that is initialized.
    unfoldable pub reward_quote :
        PoolData Key
        → PositionData
        → TickData
        → TickData
        → ℤ
        → TokenExtensionContext Mint
        → ℕ
        → WhirlpoolRewardInfoData Key
        → Result TransferFeeAmount
    reward_quote whirlpool position tick_lower tick_upper timestamp ctx i reward_info = do
      global ←
          adjusted_growth_global whirlpool.liquidity
            (timestamp -ℤ whirlpool.reward_last_updated_timestamp)
            reward_info.emissions_per_second_x64 reward_info.growth_global_x64
      lower ← or_type_error (get_elem? tick_lower.reward_growths_outside i)
      upper ← or_type_error (get_elem? tick_upper.reward_growths_outside i)
      let inside =
          reward_growth_inside whirlpool.tick_current_index position.tick_lower_index
            position.tick_upper_index global tick_lower.initialized lower tick_upper.initialized
            upper
      position_reward_info ← or_type_error (get_elem? position.reward_infos i)
      owed ←
          amount_owed position_reward_info.amount_owed inside
            position_reward_info.growth_inside_checkpoint position.liquidity
      ok (
          calculate_transfer_fee_excluded_amount spl owed (ctx.reward_token_mints i)
            ctx.current_epoch)

    unfoldable pub reward_quote_at :
        PoolData Key
        → PositionData
        → TickData
        → TickData
        → ℤ
        → TokenExtensionContext Mint
        → ℕ
        → Result (Option TransferFeeAmount)
    reward_quote_at whirlpool position tick_lower tick_upper timestamp ctx i = do
      reward_info ← or_invariant (get_elem? whirlpool.reward_infos i)
      elim (is_reward_initialized is_default reward_info) [
        | false ↦ ok none
        | true ↦ do
          r ← reward_quote whirlpool position tick_lower tick_upper timestamp ctx i reward_info
          ok (some r)
      ]

    -- The loop over the rewards from `i` on, `n` of them.
    unfoldable pub reward_quotes_from :
        PoolData Key
        → PositionData
        → TickData
        → TickData
        → ℤ
        → TokenExtensionContext Mint
        → ℕ
        → ℕ
        → Result (List (Option TransferFeeAmount))
    reward_quotes_from whirlpool position tick_lower tick_upper timestamp ctx zero i = ok []
    reward_quotes_from whirlpool position tick_lower tick_upper timestamp ctx (suc n) i = do
      r ← reward_quote_at whirlpool position tick_lower tick_upper timestamp ctx i
      rest ← reward_quotes_from whirlpool position tick_lower tick_upper timestamp ctx n (suc i)
      ok (r ∷ rest)

    unfoldable pub collect_rewards_quote :
        PoolData Key
        → PositionData
        → TickData
        → TickData
        → ℤ
        → TokenExtensionContext Mint
        → Result (List (Option TransferFeeAmount))
    collect_rewards_quote whirlpool position tick_lower tick_upper timestamp ctx =
        reward_quotes_from whirlpool position tick_lower tick_upper timestamp ctx num_rewards 0
