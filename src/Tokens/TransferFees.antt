-- ===== src/Tokens/TransferFees.antt =====
-- sdk/src/utils/public/token-extension-util.ts: amounts before and after a transfer fee.
pub mod Inverse
pub mod Mints
use solana_dex_v.Prelude.{
  ℕ, ◌==◌, ℤ, pos, ◌+ℤ◌, ◌-ℤ◌, ◌*ℤ◌, ltb_ℤ, leb_ℤ, eq_ℤ, Option, none, some, Result, ok, error,
  ◌>>=◌, ◌>>◌, throw_if, if◌then◌else◌,
}
use solana_dex_v.Bn.{div, u64_max}
use solana_dex_v.Sdk.{TransferFee, SplToken}

pub record TransferFeeAmount : Type 0 where
  pub amount : ℤ
  pub fee : ℤ

pub record TokenExtensionContext (Mint : Type 0) : Type 0 where
  pub current_epoch : ℕ
  pub token_mint_a : Mint
  pub token_mint_b : Mint
  pub reward_token_mints : ℕ → Mint

unfoldable pub ceil_div_bn : ℤ → ℤ → Result ℤ
ceil_div_bn num denom = div (num +ℤ (denom -ℤ pos 1)) denom

abbrev pub one_in_basis_points : ℕ
one_in_basis_points = 10000

abbrev pub amount_and_fee : ℤ → ℤ → TransferFeeAmount
amount_and_fee amount fee = record { amount = amount; fee = fee }

-- `calculateTransferFeeIncludedAmount` on a fee: its case of the whole amount, its normal case and
-- the function.
unfoldable pub include_whole : TransferFee → ℤ → Result TransferFeeAmount
include_whole transfer_fee amount = do
  let max_fee = pos transfer_fee.maximum_fee
  throw_if (ltb_ℤ u64_max (amount +ℤ max_fee)) error
  ok (amount_and_fee (amount +ℤ max_fee) max_fee)

unfoldable pub include_part : TransferFee → ℤ → Result TransferFeeAmount
include_part transfer_fee amount = do
  let max_fee = pos transfer_fee.maximum_fee
  let num = amount *ℤ pos one_in_basis_points
  let denom = pos one_in_basis_points -ℤ pos transfer_fee.transfer_fee_basis_points
  raw ← ceil_div_bn num denom
  let result =
      if leb_ℤ max_fee (raw -ℤ amount)
      then amount_and_fee (amount +ℤ max_fee) max_fee
      else amount_and_fee raw (raw -ℤ amount)
  throw_if (ltb_ℤ u64_max result.amount) error
  ok result

unfoldable pub include_fee : TransferFee → ℤ → Result TransferFeeAmount
include_fee transfer_fee amount =
    if transfer_fee.transfer_fee_basis_points == 0
    then ok (amount_and_fee amount (pos 0))
    else if eq_ℤ amount (pos 0)
    then ok (amount_and_fee amount (pos 0))
    else if transfer_fee.transfer_fee_basis_points == one_in_basis_points
    then include_whole transfer_fee amount
    else include_part transfer_fee amount

module _ {Mint Config : Type 0} (spl : SplToken Mint Config) where
  unfoldable pub exclude_fee : TransferFee → ℤ → TransferFeeAmount
  exclude_fee transfer_fee amount =
      let fee = spl.calculate_fee transfer_fee amount in amount_and_fee (amount -ℤ fee) fee

  unfoldable pub calculate_transfer_fee_included_amount : ℤ → Mint → ℕ → Result TransferFeeAmount
  calculate_transfer_fee_included_amount transfer_fee_excluded_amount token_info current_epoch =
      elim (spl.get_transfer_fee_config token_info) [
        | none ↦ ok (amount_and_fee transfer_fee_excluded_amount (pos 0))
        | some config ↦
            include_fee (spl.get_epoch_fee config current_epoch) transfer_fee_excluded_amount
      ]

  unfoldable pub calculate_transfer_fee_excluded_amount : ℤ → Mint → ℕ → TransferFeeAmount
  calculate_transfer_fee_excluded_amount transfer_fee_included_amount token_info current_epoch =
      elim (spl.get_transfer_fee_config token_info) [
        | none ↦ amount_and_fee transfer_fee_included_amount (pos 0)
        | some config ↦
            exclude_fee (spl.get_epoch_fee config current_epoch) transfer_fee_included_amount
      ]
