-- ===== src/Types.antt =====
-- sdk/src/types/public: the constants of the program (constants.ts) and its account data.
use solana_dex_v.Prelude.{ℕ, ℤ, pos, negsuc, Bool, List}

abbrev pub num_rewards : ℕ
num_rewards = 3

abbrev pub max_tick_index : ℤ
max_tick_index = pos 443636

abbrev pub min_tick_index : ℤ
min_tick_index = negsuc 443635

abbrev pub max_sqrt_price : ℤ
max_sqrt_price = pos 79226673515401279992447579055

abbrev pub min_sqrt_price : ℤ
min_sqrt_price = pos 4295048016

abbrev pub tick_array_size : ℕ
tick_array_size = 88

abbrev pub position_bundle_size : ℕ
position_bundle_size = 256

abbrev pub max_swap_tick_arrays : ℕ
max_swap_tick_arrays = 3

abbrev pub protocol_fee_rate_mul_value : ℤ
protocol_fee_rate_mul_value = pos 10000

abbrev pub fee_rate_mul_value : ℤ
fee_rate_mul_value = pos 1000000

-- anchor-types.ts: the accounts that the quotes read, with the fields that they read.
pub record TickData : Type 0 where
  pub initialized : Bool
  pub liquidity_net : ℤ
  pub liquidity_gross : ℤ
  pub fee_growth_outside_a : ℤ
  pub fee_growth_outside_b : ℤ
  pub reward_growths_outside : List ℤ

pub record TickArrayData : Type 0 where
  pub start_tick_index : ℤ
  pub ticks : List TickData

pub record WhirlpoolRewardInfoData (Key : Type 0) : Type 0 where
  pub mint : Key
  pub vault : Key
  pub emissions_per_second_x64 : ℤ
  pub growth_global_x64 : ℤ

pub record PoolData (Key : Type 0) : Type 0 where
  pub fee_rate : ℕ
  pub protocol_fee_rate : ℕ
  pub liquidity : ℤ
  pub sqrt_price : ℤ
  pub tick_current_index : ℤ
  pub token_mint_a : Key
  pub token_vault_a : Key
  pub fee_growth_global_a : ℤ
  pub token_mint_b : Key
  pub token_vault_b : Key
  pub fee_growth_global_b : ℤ
  pub reward_last_updated_timestamp : ℤ
  pub reward_infos : List (WhirlpoolRewardInfoData Key)
  pub tick_spacing : ℕ

pub record PositionRewardInfoData : Type 0 where
  pub growth_inside_checkpoint : ℤ
  pub amount_owed : ℤ

pub record PositionData : Type 0 where
  pub liquidity : ℤ
  pub tick_lower_index : ℤ
  pub tick_upper_index : ℤ
  pub fee_growth_checkpoint_a : ℤ
  pub fee_owed_a : ℤ
  pub fee_growth_checkpoint_b : ℤ
  pub fee_owed_b : ℤ
  pub reward_infos : List PositionRewardInfoData
