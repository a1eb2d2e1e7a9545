-- ===== src/Math/BitMath.antt =====
-- sdk/src/utils/math/bit-math.ts: products and quotients that check a width in bits.
pub mod Rounding
use solana_dex_v.Prelude.{
  ℕ, ◌^◌, ℤ, pos, ◌+ℤ◌, ◌-ℤ◌, ◌*ℤ◌, ltb_ℤ, eq_ℤ, Bool, true, false, ◌&&◌, ◌||◌, Result, ok, err,
  multiplication_overflow, multiplication_shift_right_overflow, divide_by_zero, ◌>>=◌, ◌>>◌,
  throw_if, if◌then◌else◌,
}
use solana_dex_v.Bn.{div, modulo, and_u64_max, u64_max}
use solana_dex_v.Sdk.{MathUtil}

unfoldable pub is_over_limit : ℤ → ℕ → Bool
is_over_limit n0 limit = let limit_bn = pos (2 ^ limit) -ℤ pos 1 in ltb_ℤ limit_bn n0

unfoldable pub mul : ℤ → ℤ → ℕ → Result ℤ
mul n0 n1 limit = do
  let result = n0 *ℤ n1
  throw_if (is_over_limit result limit) multiplication_overflow
  ok result

unfoldable pub mul_div_round_up_if : ℤ → ℤ → ℤ → Bool → ℕ → Result ℤ
mul_div_round_up_if n0 n1 d round_up limit = do
  throw_if (eq_ℤ d (pos 0)) divide_by_zero
  p ← mul n0 n1 limit
  n ← div p d
  r ← modulo p d
  ok (if round_up && ltb_ℤ (pos 0) r then n +ℤ pos 1 else n)

unfoldable pub mul_div : ℤ → ℤ → ℤ → ℕ → Result ℤ
mul_div n0 n1 d limit = mul_div_round_up_if n0 n1 d false limit

unfoldable pub mul_div_round_up : ℤ → ℤ → ℤ → ℕ → Result ℤ
mul_div_round_up n0 n1 d limit = mul_div_round_up_if n0 n1 d true limit

unfoldable pub div_round_up_if : ℤ → ℤ → Bool → Result ℤ
div_round_up_if n d round_up = do
  throw_if (eq_ℤ d (pos 0)) divide_by_zero
  q ← div n d
  r ← modulo n d
  ok (if round_up && ltb_ℤ (pos 0) r then q +ℤ pos 1 else q)

unfoldable pub div_round_up : ℤ → ℤ → Result ℤ
div_round_up n d = div_round_up_if n d true

module _ (math : MathUtil) where
  unfoldable pub checked_mul_shift_right_round_up_if : ℤ → ℤ → Bool → ℕ → Result ℤ
  checked_mul_shift_right_round_up_if n0 n1 round_up limit =
      if eq_ℤ n0 (pos 0) || eq_ℤ n1 (pos 0) then ok (pos 0) else do
        p ← mul n0 n1 limit
        throw_if (is_over_limit p limit) multiplication_shift_right_overflow
        let result = math.from_x64_bn p
        low ← and_u64_max result
        let should_round = round_up && ltb_ℤ (pos 0) low
        throw_if (should_round && eq_ℤ result u64_max) multiplication_overflow
        ok (if should_round then result +ℤ pos 1 else result)

  unfoldable pub checked_mul_shift_right : ℤ → ℤ → ℕ → Result ℤ
  checked_mul_shift_right n0 n1 limit = checked_mul_shift_right_round_up_if n0 n1 false limit
