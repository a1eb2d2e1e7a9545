-- ===== src/Swap/SwapManager/FeeSplit.antt =====
-- What the loop of a swap does with the fee of a step.
use solana_dex_v.Prelude.{ℕ, ◌+◌, ◌*◌, ◌/◌, ◌^◌, ◌<◌, ◌≡◌, pos, ok, arith}
use solana_dex_v.Swap.SwapManager.{Fees, calculate_fees, calculate_protocol_fee}

abbrev pub fees_of : ℕ → ℕ → Fees
fees_of p g = record { next_protocol_fee = pos p; next_fee_growth_global_input = pos g }

-- For every protocol rate below the whole (10000), and positive liquidity, the protocol's part of a
-- fee is nothing: the whole fee goes into the growth, and a protocol fee of 0 stays 0.
pub calculate_fees-no_protocol_fee :
    (fee rate liquidity growth : ℕ)
    → rate < 10000
    → 0 < liquidity
    → calculate_fees (pos fee) rate (pos liquidity) (pos 0) (pos growth)
      ≡ ok (fees_of 0 (growth + fee * 2 ^ 64 / liquidity))
unfolding calculate_fees calculate_protocol_fee
calculate_fees-no_protocol_fee fee rate liquidity growth h l = ground arith
