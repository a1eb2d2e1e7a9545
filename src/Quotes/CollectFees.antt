-- ===== src/Quotes/CollectFees.antt =====
-- sdk/src/quotes/public/collect-fees-quote.ts: the fees that a position is owed.
pub mod Growth
pub mod Owed
use solana_dex_v.Prelude.{ℤ, ◌+ℤ◌, ◌*ℤ◌, ltb_ℤ, Result, ok, ◌>>=◌, if◌then◌else◌}
use solana_dex_v.Bn.{shrn}
use solana_dex_v.Sdk.{MathUtil, SplToken}
use solana_dex_v.Types.{TickData, PoolData, PositionData}
use solana_dex_v.Tokens.TransferFees.{
  TransferFeeAmount, TokenExtensionContext, calculate_transfer_fee_excluded_amount,
}

pub record CollectFeesQuote : Type 0 where
  pub fee_owed_a : ℤ
  pub fee_owed_b : ℤ
  pub deducted_from_fee_owed_a : ℤ
  pub deducted_from_fee_owed_b : ℤ

module _ (math : MathUtil) where
  -- The growth of a fee inside a position, for one token: the code computes it for A and for B.
  unfoldable pub fee_growth_inside : ℤ → ℤ → ℤ → ℤ → ℤ → ℤ → ℤ
  fee_growth_inside tick_current_index tick_lower_index tick_upper_index global lower upper =
      let below =
        if ltb_ℤ tick_current_index tick_lower_index
        then math.sub_underflow_u128 global lower
        else lower in
      let above =
        if ltb_ℤ tick_current_index tick_upper_index
        then upper
        else math.sub_underflow_u128 global upper in
      math.sub_underflow_u128 (math.sub_underflow_u128 global below) above

  unfoldable pub fee_owed_delta : ℤ → ℤ → ℤ → Result ℤ
  fee_owed_delta growth_inside checkpoint liquidity =
      shrn (math.sub_underflow_u128 growth_inside checkpoint *ℤ liquidity) 64

  module _ {Key Mint Config : Type 0} (spl : SplToken Mint Config) where
    unfoldable pub collect_fees_quote :
        PoolData Key
        → PositionData
        → TickData
        → TickData
        → TokenExtensionContext Mint
        → Result CollectFeesQuote
    collect_fees_quote whirlpool position tick_lower tick_upper ctx = do
      let inside_a =
          fee_growth_inside whirlpool.tick_current_index position.tick_lower_index
            position.tick_upper_index whirlpool.fee_growth_global_a tick_lower.fee_growth_outside_a
            tick_upper.fee_growth_outside_a
      let inside_b =
          fee_growth_inside whirlpool.tick_current_index position.tick_lower_index
            position.tick_upper_index whirlpool.fee_growth_global_b tick_lower.fee_growth_outside_b
            tick_upper.fee_growth_outside_b
      delta_a ← fee_owed_delta inside_a position.fee_growth_checkpoint_a position.liquidity
      delta_b ← fee_owed_delta inside_b position.fee_growth_checkpoint_b position.liquidity
      let excluded_a =
          calculate_transfer_fee_excluded_amount spl (position.fee_owed_a +ℤ delta_a)
            ctx.token_mint_a ctx.current_epoch
      let excluded_b =
          calculate_transfer_fee_excluded_amount spl (position.fee_owed_b +ℤ delta_b)
            ctx.token_mint_b ctx.current_epoch
      ok (record {
        fee_owed_a = excluded_a.amount;
        fee_owed_b = excluded_b.amount;
        deducted_from_fee_owed_a = excluded_a.fee;
        deducted_from_fee_owed_b = excluded_b.fee;
      })
