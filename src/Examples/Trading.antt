-- ===== src/Examples/Trading.antt =====
-- A pool of the tokens 1 and 2, and quotes of swaps by token.
use solana_dex_v.Prelude.{
  ℕ, ◌*◌, ◌≤◌, ◌<◌, ◌==◌, ◌≡◌, ◌≢◌, ◌⊎◌, refl, ℤ, pos, negsuc, ◌+◌, ◌-ℤ◌, ltb_ℤ, Bool, true, false,
  not, Option, none, some, if◌then◌else◌, List, [], ◌∷◌, map, Result, ok, err, invariant_failed,
  invalid_dev_fee_percentage, ◌>>=◌, arith,
}
use solana_dex_v.Sdk.{Percentage, TransferFee, IsFloor}
use solana_dex_v.Types.{PoolData, TickArrayData}
use solana_dex_v.Tokens.TransferFees.{TokenExtensionContext}
use solana_dex_v.Positions.PositionUtil.Amounts.{percentage}
use solana_dex_v.Swap.TokenQuote.{Pool, swap_quote_by_token, swap_quote_by_input_token}
use solana_dex_v.Swap.TokenQuote.Defaults.{Prepares, swap_quote_by_token-Prepares}
use solana_dex_v.Swap.DevFeeQuote.{
  DevFeeSwapQuote, add_dev_fee, swap_quote_by_input_token_with_dev_fees,
}
use solana_dex_v.Swap.DevFeeQuote.Paid.{Pays, with_dev_fees-cases}
use solana_dex_v.Router.BatchSwapQuote.{SwapQuoteRequest, map_result, batch_build_swap_quote_params}
use solana_dex_v.Router.BatchSwapQuote.Singly.{singly, batch_build_swap_quote_params-map_result}
use solana_dex_v.Examples.Packages.{math_util, bn_bits, spl_token}

abbrev pool_data : PoolData ℕ
pool_data = record {
  fee_rate = 3000;
  protocol_fee_rate = 300;
  liquidity = pos 1000000000;
  sqrt_price = pos 18539204128674405812;
  tick_current_index = pos 100;
  token_mint_a = 1;
  token_vault_a = 21;
  fee_growth_global_a = pos 0;
  token_mint_b = 2;
  token_vault_b = 22;
  fee_growth_global_b = pos 0;
  reward_last_updated_timestamp = pos 0;
  reward_infos = [];
  tick_spacing = 64;
}

abbrev pool : Pool ℕ
pool = record { pool_address = 9; pool_data = pool_data }

abbrev equals : ℕ → ℕ → Bool
equals a b = a == b

-- An address for each start tick that is not negative; no array exists.
abbrev find_address : ℕ → ℤ → ℕ
find_address w (pos start) = w * 1000000 + start
find_address w (negsuc start) = w

abbrev account : ℕ → Option TickArrayData
account key = none

abbrev ctx : TokenExtensionContext (Option TransferFee)
ctx = record {
  current_epoch = 1;
  token_mint_a = none;
  token_mint_b = none;
  reward_token_mints = λ i. none;
}

equals_sound : (a b : ℕ) → equals a b ≡ true → a ≡ b
equals_sound a b e = ground arith

equals_refl : (a : ℕ) → equals a a ≡ true
equals_refl a = ground arith

swap_quote_by_token-Prepares_example :
    ((pool_data.token_mint_a ≡ 2) ⊎ (pool_data.token_mint_b ≡ 2)
      → Prepares equals find_address
          (map account)
          ctx
          account
          (λ keys. refl)
          pool
          2
          (pos 500)
          false)
    × (pool_data.token_mint_a ≢ 2
        → pool_data.token_mint_b ≢ 2
        → swap_quote_by_token equals find_address (map account) ctx pool 2 (pos 500) false
          ≡ err invariant_failed)
swap_quote_by_token-Prepares_example =
    swap_quote_by_token-Prepares equals find_address (map account) ctx account (λ keys. refl)
      equals_sound equals_refl pool 2 (pos 500) false (omega arith) (omega arith)

abbrev is_at_least_one : Percentage → Bool
is_at_least_one p = not (ltb_ℤ p.numerator p.denominator)

is_at_least_one-smaller : (a d : ℕ) → 0 < d → is_at_least_one (percentage a d) ≡ false → a < d
is_at_least_one-smaller a d h e = ground arith

abbrev with_dev_fees : ℕ → Result (DevFeeSwapQuote ℕ)
with_dev_fees amount =
    swap_quote_by_input_token_with_dev_fees equals find_address (map account) ctx math_util bn_bits
      spl_token 50 is_at_least_one pool 1 (pos amount) (percentage 1 100) (percentage 3 1000)

-- Three parts of a thousand of 2000 tokens.
with_dev_fees-cases_example :
    (is_at_least_one (percentage 3 1000) ≡ true
      → with_dev_fees 2000 ≡ err invalid_dev_fee_percentage)
    × (is_at_least_one (percentage 3 1000) ≡ false
        → (fee : ℕ) × IsFloor fee (2000 * 3) 1000
          × (fee ≤ 2000)
          × (0 < 2000 → fee < 2000)
          × (with_dev_fees 2000 ≡ (
              swap_quote_by_input_token equals find_address
                (map account)
                ctx
                math_util
                bn_bits
                spl_token
                50
                pool
                1
                (pos 2000 -ℤ pos fee)
                (percentage 1 100)
              >>= λ q. ok (add_dev_fee (pos fee) q)))
          × ((q : DevFeeSwapQuote ℕ)
              → with_dev_fees 2000 ≡ ok q
              → Pays equals find_address
                  (map account)
                  ctx
                  math_util
                  bn_bits
                  spl_token
                  50
                  is_at_least_one
                  pool
                  1
                  (percentage 1 100)
                  2000
                  (pos fee)
                  q))
with_dev_fees-cases_example =
    with_dev_fees-cases equals find_address (map account) ctx math_util bn_bits spl_token 50
      is_at_least_one is_at_least_one-smaller pool 1 2000 3 1000 (percentage 1 100) (omega arith)

abbrev pools : ℕ → Option (PoolData ℕ)
pools addr = if addr == 9 then some pool_data else none

abbrev requests : List (SwapQuoteRequest ℕ)
requests =
    record {
      whirlpool = 9;
      trade_token_mint = 1;
      token_amount = pos 300;
      amount_specified_is_input = true;
    }
    ∷ record {
      whirlpool = 9;
      trade_token_mint = 2;
      token_amount = pos 400;
      amount_specified_is_input = true;
    }
    ∷ []

batch_build_swap_quote_params-map_result_example :
    batch_build_swap_quote_params equals find_address (map account) pools ctx requests
    ≡ map_result
        (singly equals find_address (map account) pools ctx account (λ keys. refl))
        requests
batch_build_swap_quote_params-map_result_example =
    batch_build_swap_quote_params-map_result equals find_address (map account) pools ctx account
      (λ keys. refl) requests
