-- ===== src/Positions/PositionUtil/Amounts.antt =====
-- Slippage, and liquidity as amounts of tokens.
use native.Mathlib.Nat.{div-mul-le_self, le-div_iff_mul-le, mul-le-mul_right}
use native.Mathlib.Decide.{dec_le}
use solana_dex_v.Prelude.{
  ℕ, suc, ◌+◌, ◌-◌, ◌*◌, ◌/◌, ◌^◌, ◌≤◌, ◌<◌, ◌≡◌, refl, ℤ, pos, sub_ℕ-le, Bool, true, false, ok,
  arith,
}
use solana_dex_v.Bn.{div}
use solana_dex_v.Sdk.{MathUtil, Percentage}
use solana_dex_v.Math.TokenMath
use solana_dex_v.Positions.PositionUtil.{
  adjust_for_slippage, adjust_amount_for_slippage, input, output, order_sqrt_price,
  get_liquidity_from_token_b, get_token_b_from_liquidity,
}

pub div-pos : (a b : ℕ) → 0 < b → div (pos a) (pos b) ≡ ok (pos (a / b))
div-pos a b h = ground arith

abbrev pub percentage : ℕ → ℕ → Percentage
percentage s d = record { numerator = pos s; denominator = pos d }

slack_up : (n s d : ℕ) → 0 < d → n ≤ n * (d + s) / d
slack_up n s d h = (le-div_iff_mul-le h).1 (omega arith)

slack_down : (n s d : ℕ) → 0 < d → n * d / (d + s) ≤ n
slack_down n s d h =
    let pos_sum : 0 < d + s = omega arith in
    elim (dec_le (n * d / (d + s)) n) [
      | yes le ↦ le
      | no gt ↦ absurd (
          omega (
            arith,
            div-mul-le_self (n * d) (d + s),
            mul-le-mul_right {m = suc n} {n = n * d / (d + s)} (d + s) (omega arith),
          ))
    ]

-- For a slippage of `s` over a positive `d`: adjusting up gives at least the amount, adjusting down
-- at most it. The three copies of the calculation, of this file and of the arithmetic of swaps, agree.
pub adjust_for_slippage-bounds :
    (n s d : ℕ)
    → 0 < d
    → (up : ℕ) × (down : ℕ) × (adjust_for_slippage (pos n) (percentage s d) true ≡ ok (pos up))
      × (adjust_for_slippage (pos n) (percentage s d) false ≡ ok (pos down))
      × (n ≤ up)
      × (down ≤ n)
      × ((b : Bool)
          → TokenMath.adjust_for_slippage (pos n) (percentage s d) b
            ≡ adjust_for_slippage (pos n) (percentage s d) b)
      × ((other : ℤ)
          → (adjust_amount_for_slippage other (pos n) (percentage s d) input ≡ ok (pos down))
            × (adjust_amount_for_slippage (pos n) other (percentage s d) output ≡ ok (pos up)))
unfolding adjust_for_slippage adjust_amount_for_slippage TokenMath.adjust_for_slippage
adjust_for_slippage-bounds n s d h =
    let up = div-pos (n * (d + s)) d h in
    let down = div-pos (n * d) (d + s) (omega arith) in
    (
      n * (d + s) / d,
      n * d / (d + s),
      up,
      down,
      slack_up n s d h,
      slack_down n s d h,
      (λ b. refl),
      λ other. (down, up),
    )

pub order_le : (a b : ℕ) → a < b → order_sqrt_price (pos a) (pos b) ≡ (pos a, pos b)
unfolding order_sqrt_price
order_le a b h = ground arith

-- Token amounts do not depend on the order in which the two prices are given.
order_comm : (a b : ℕ) → order_sqrt_price (pos a) (pos b) ≡ order_sqrt_price (pos b) (pos a)
unfolding order_sqrt_price
order_comm a b = ground arith

back_le : (amount d : ℕ) → 0 < d → amount * 2 ^ 64 / d * d / 2 ^ 64 ≤ amount
back_le amount d h = omega (arith, div-mul-le_self (amount * 2 ^ 64) d)

module _ (math : MathUtil) where
  -- For prices `a < b`: the liquidity that an amount of token B buys, rounded down, is worth at most
  -- that amount again, whichever price is given first.
  pub get_token_b_from_liquidity-back :
      (amount a b : ℕ)
      → a < b
      → (l : ℕ) × (t : ℕ) × (get_liquidity_from_token_b math (pos amount) (pos a) (pos b) false
          ≡ ok (pos l))
        × (get_token_b_from_liquidity math (pos l) (pos a) (pos b) false ≡ ok (pos t))
        × (get_token_b_from_liquidity math (pos l) (pos b) (pos a) false ≡ ok (pos t))
        × (t ≤ amount)
  unfolding get_liquidity_from_token_b get_token_b_from_liquidity
  get_token_b_from_liquidity-back amount a b h =
      let l = amount * 2 ^ 64 / (b - a) in
      let width = sub_ℕ-le b a (omega arith) in
      let divided = div-pos (amount * 2 ^ 64) (b - a) (omega arith) in
      (
        l,
        l * (b - a) / 2 ^ 64,
        rw (width, divided) refl,
        rw (order_le a b h, width) refl,
        rw (order_comm b a, order_le a b h, width) refl,
        back_le amount (b - a) (omega arith),
      )
