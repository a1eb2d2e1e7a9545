-- ===== src/Examples/Packages.antt =====
-- Functions with the documented behaviour of @orca-so/common-sdk, @solana/spl-token and bn.js.
use solana_dex_v.Prelude.{
  ℕ, zero, suc, ◌+◌, ◌-◌, ◌*◌, ◌/◌, ◌%◌, ◌^◌, ◌≤◌, ◌<◌, min, ◌==◌, ltb, ◌≡◌, refl, ap, ℤ, pos,
  negsuc, sub_ℕ, Bool, true, false, Option, Result, ok, err, assertion_failed, arith, if◌then◌else◌,
  lt→ltb,
}
use solana_dex_v.Sdk.{MathUtil, TransferFee, SplToken, IsCeil}
use solana_dex_v.Price.PriceMath.{BnBits}
use solana_dex_v.Tokens.TransferFees.Inverse.{quotient_up-IsCeil}

abbrev from_x64 : ℤ → ℤ
from_x64 (pos n) = pos (n / 2 ^ 64)
from_x64 (negsuc n) = negsuc (n / 2 ^ 64)

abbrev sub_underflow : ℤ → ℤ → ℤ
sub_underflow (pos a) (pos b) = pos ((a + 2 ^ 128 - b) % 2 ^ 128)
sub_underflow (pos a) (negsuc b) = pos ((a + suc b) % 2 ^ 128)
sub_underflow (negsuc a) b = pos 0

abbrev ceil_div : ℤ → ℤ → Result ℤ
ceil_div (pos n) (pos d) = if d == 0 then err assertion_failed else ok (pos ((n + (d - 1)) / d))
ceil_div (pos n) (negsuc d) = ok (sub_ℕ 0 (n / suc d))
ceil_div (negsuc n) d = err assertion_failed

abbrev shift_up : ℤ → ℤ
shift_up (pos n) = pos (if n % 2 ^ 64 == 0 then n / 2 ^ 64 else n / 2 ^ 64 + 1)
shift_up (negsuc n) = negsuc (n / 2 ^ 64)

pub ceil_div-pos :
    (n d : ℕ) → 0 < d → (q : ℕ) × (ceil_div (pos n) (pos d) ≡ ok (pos q)) × IsCeil q n d
ceil_div-pos n d h = ((n + (d - 1)) / d, ground arith, quotient_up-IsCeil n d h)

pub shift_up-pos :
    (n : ℕ) → (q : ℕ) × (shift_up (pos n) ≡ pos q) × (n / 2 ^ 64 ≤ q) × (q ≤ n / 2 ^ 64 + 1)
shift_up-pos n =
    (if n % 2 ^ 64 == 0 then n / 2 ^ 64 else n / 2 ^ 64 + 1, refl, ground arith, ground arith)

abbrev pub math_util : MathUtil
math_util = record {
  from_x64_bn = from_x64;
  sub_underflow_u128 = sub_underflow;
  div_round_up = ceil_div;
  shift_right_round_up = shift_up;
  from_x64_bn-pos = λ n. refl;
  sub_underflow_u128-pos = λ a b ha hb. refl;
  div_round_up-pos = ceil_div-pos;
  shift_right_round_up-pos = shift_up-pos;
}

abbrev to_twos : ℤ → ℕ → ℤ
to_twos (pos n) w = pos n
to_twos (negsuc n) w = pos (2 ^ w - suc n)

abbrev from_twos_bit : ℕ → ℕ → Bool → ℤ
from_twos_bit n w true = pos n
from_twos_bit n w false = sub_ℕ 0 (2 ^ suc w - n % 2 ^ suc w)

abbrev from_twos : ℤ → ℕ → ℤ
from_twos (pos n) zero = pos n
from_twos (pos n) (suc w) = from_twos_bit n w (ltb n (2 ^ w))
from_twos (negsuc n) w = negsuc n

pub from_twos-pos : (n w : ℕ) → n < 2 ^ w → from_twos (pos n) (suc w) ≡ pos n
from_twos-pos n w h = ap (from_twos_bit n w) (lt→ltb n (2 ^ w) h)

-- The length in bits, on fuel.
abbrev length_from : ℕ → ℕ → ℕ
length_from zero n = 0
length_from (suc fuel) n = let rest = length_from fuel (n / 2) in if n == 0 then 0 else suc rest

abbrev bit_length_of : ℤ → ℕ
bit_length_of (pos n) = length_from 130 n
bit_length_of (negsuc n) = length_from 130 (suc n)

abbrev pub bn_bits : BnBits
bn_bits = record {
  to_twos = to_twos;
  from_twos = from_twos;
  bit_length = bit_length_of;
  to_twos-pos = λ n w. refl;
  from_twos-pos = from_twos-pos;
}

abbrev fee_of : TransferFee → ℤ → ℤ
fee_of f (pos a) = pos (min ((a * f.transfer_fee_basis_points + (10000 - 1)) / 10000) f.maximum_fee)
fee_of f (negsuc a) = pos 0

pub fee_of-pos :
    (f : TransferFee) (a : ℕ)
    → (q : ℕ) × IsCeil q (a * f.transfer_fee_basis_points) 10000
      × (fee_of f (pos a) ≡ pos (min q f.maximum_fee))
fee_of-pos f a = (
  (a * f.transfer_fee_basis_points + (10000 - 1)) / 10000,
  quotient_up-IsCeil (a * f.transfer_fee_basis_points) 10000 (omega arith),
  refl,
)

-- A mint is its fee, or none.
abbrev pub spl_token : SplToken (Option TransferFee) TransferFee
spl_token = record {
  get_transfer_fee_config = λ mint. mint;
  get_epoch_fee = λ config epoch. config;
  calculate_fee = fee_of;
  calculate_fee-pos = fee_of-pos;
}

-- One percent, at most 50.
abbrev pub one_percent : TransferFee
one_percent = record { transfer_fee_basis_points = 100; maximum_fee = 50 }
