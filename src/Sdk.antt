-- ===== src/Sdk.antt =====
-- What the program takes from packages that are not in the repository: @orca-so/common-sdk and
-- @solana/spl-token. Each is a record of the functions that are called, with the documented
-- behaviour that the proofs use; the behaviour on negative numbers is left open.
use solana_dex_v.Prelude.{
  ℕ, ◌+◌, ◌-◌, ◌*◌, ◌/◌, ◌%◌, ◌^◌, ◌≤◌, ◌<◌, min, ◌≡◌, ℤ, pos, Option, Result, ok,
}

-- The quotient `q` of `n` by `d`, rounded down or up.
abbrev pub IsFloor : ℕ → ℕ → ℕ → Type 0
IsFloor q n d = (q * d ≤ n) × (n < q * d + d)

abbrev pub IsCeil : ℕ → ℕ → ℕ → Type 0
IsCeil q n d = (n ≤ q * d) × (q * d < n + d)

-- The functions of `MathUtil` (common-sdk) that the program calls. Of `shiftRightRoundUp` only this
-- is used: it is the shifted number, or one more.
pub record MathUtil : Type 0 where
  pub from_x64_bn : ℤ → ℤ
  pub sub_underflow_u128 : ℤ → ℤ → ℤ
  pub div_round_up : ℤ → ℤ → Result ℤ
  pub shift_right_round_up : ℤ → ℤ
  pub from_x64_bn-pos : (n : ℕ) → from_x64_bn (pos n) ≡ pos (n / 2 ^ 64)
  pub sub_underflow_u128-pos :
      (a b : ℕ)
      → a < 2 ^ 128
      → b < 2 ^ 128
      → sub_underflow_u128 (pos a) (pos b) ≡ pos ((a + 2 ^ 128 - b) % 2 ^ 128)
  pub div_round_up-pos :
      (n d : ℕ) → 0 < d → (q : ℕ) × (div_round_up (pos n) (pos d) ≡ ok (pos q)) × IsCeil q n d
  pub shift_right_round_up-pos :
      (n : ℕ)
      → (q : ℕ) × (shift_right_round_up (pos n) ≡ pos q) × (n / 2 ^ 64 ≤ q) × (q ≤ n / 2 ^ 64 + 1)

-- `Percentage` (common-sdk).
pub record Percentage : Type 0 where
  pub numerator : ℤ
  pub denominator : ℤ

-- `TransferFee` (spl-token): the fields that the program reads. Both are unsigned on chain.
pub record TransferFee : Type 0 where
  pub transfer_fee_basis_points : ℕ
  pub maximum_fee : ℕ

-- The functions of spl-token that read a mint's transfer fee. `calculateFee` is documented as the
-- fee in basis points, rounded up, and at most the maximum.
pub record SplToken (Mint Config : Type 0) : Type 0 where
  pub get_transfer_fee_config : Mint → Option Config
  pub get_epoch_fee : Config → ℕ → TransferFee
  pub calculate_fee : TransferFee → ℤ → ℤ
  pub calculate_fee-pos :
      (f : TransferFee) (a : ℕ)
      → (q : ℕ) × IsCeil q (a * f.transfer_fee_basis_points) 10000
        × (calculate_fee f (pos a) ≡ pos (min q f.maximum_fee))
