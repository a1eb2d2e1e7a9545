-- ===== src/Quotes/IncreaseLiquidity/Deposits.antt =====
-- Liquidity bought with token A is worth at most what was paid.
use native.Mathlib.Nat.{div-mul-le_self, mul-le-mul_right, mul-pos, le-div_iff_mul-le}
use native.Mathlib.Decide.{dec_le}
use solana_dex_v.Prelude.{
  ℕ, suc, ◌+◌, ◌-◌, ◌*◌, ◌/◌, ◌^◌, ◌≤◌, ◌<◌, ◌≡◌, refl, pos, sub_ℕ-le, true, false, ok, arith,
}
use solana_dex_v.Sdk.{MathUtil, IsCeil}
use solana_dex_v.Positions.PositionUtil.{
  adjust_for_slippage, get_liquidity_from_token_a, get_token_a_from_liquidity,
  get_token_b_from_liquidity,
}
use solana_dex_v.Positions.PositionUtil.Amounts.{div-pos, order_le, percentage}

-- A rounded-up quotient of at most n times the divisor is at most n.
ceil-le : (q m d n : ℕ) → IsCeil q m d → m ≤ n * d → q ≤ n
ceil-le q m d n c h = elim (dec_le q n) [
  | yes le ↦ le
  | no gt ↦ absurd (omega (arith, c.1, mul-le-mul_right {m = suc n} {n = q} d (omega arith)))
]

bought-le : (m w : ℕ) → m / w / 2 ^ 64 * w * 2 ^ 64 ≤ m
bought-le m w =
    let l = m / w / 2 ^ 64 in
    let once = div-mul-le_self (m / w) (2 ^ 64) in
    let scaled = mul-le-mul_right {m = l * 2 ^ 64} {n = m / w} w once in
    omega (arith, scaled, div-mul-le_self m w)

-- The liquidity that n of token A buys between two prices, rounded down.
abbrev pub bought : ℕ → ℕ → ℕ → ℕ
bought n lo hi = n * lo * hi / (hi - lo) / 2 ^ 64

-- An amount with a slippage of s / d added to it, rounded down.
abbrev pub slipped : ℕ → ℕ → ℕ → ℕ
slipped n s d = n * (d + s) / d

pub adjust_for_slippage-slipped :
    (n s d : ℕ)
    → 0 < d
    → adjust_for_slippage (pos n) (percentage s d) true ≡ ok (pos (slipped n s d))
unfolding adjust_for_slippage
adjust_for_slippage-slipped n s d h = div-pos (n * (d + s)) d h

pub le-slipped : (n s d : ℕ) → 0 < d → n ≤ slipped n s d
le-slipped n s d h = (le-div_iff_mul-le h).1 (omega arith)

module _ (math : MathUtil) where
  -- For prices lo < hi: the liquidity that an amount of token A buys, rounded down, costs at most that
  -- amount, rounded up.
  pub get_token_a_from_liquidity-back :
      (n lo hi : ℕ)
      → lo < hi
      → 0 < lo
      → (l : ℕ) × (e : ℕ) × (get_liquidity_from_token_a math (pos n) (pos lo) (pos hi) false
          ≡ ok (pos l))
        × (get_token_a_from_liquidity math (pos l) (pos lo) (pos hi) true ≡ ok (pos e))
        × (e ≤ n)
        × (l ≡ bought n lo hi)
        × IsCeil e (l * (hi - lo) * 2 ^ 64) (hi * lo)
  unfolding get_liquidity_from_token_a get_token_a_from_liquidity
  get_token_a_from_liquidity-back n lo hi lt lo_pos =
      let w = hi - lo in
      let l = n * lo * hi / w / 2 ^ 64 in
      let (e, rounded, ceil) =
        math.div_round_up-pos (l * w * 2 ^ 64) (hi * lo) (mul-pos (omega arith) lo_pos) in
      (
        l,
        e,
        rw (sub_ℕ-le hi lo (omega arith), div-pos (n * lo * hi) w (omega arith)) refl,
        rw (order_le lo hi lt, sub_ℕ-le hi lo (omega arith)) rounded,
        ceil-le e _ _ n ceil (omega (arith, bought-le (n * lo * hi) w)),
        refl,
        ceil,
      )

  pub token_b_cost :
      (l lo hi : ℕ)
      → lo < hi
      → (f : ℕ) × (get_token_b_from_liquidity math (pos l) (pos lo) (pos hi) true ≡ ok (pos f))
        × (l * (hi - lo) / 2 ^ 64 ≤ f)
        × (f ≤ l * (hi - lo) / 2 ^ 64 + 1)
  unfolding get_token_b_from_liquidity
  token_b_cost l lo hi lt =
      let (f, e, least, most) = math.shift_right_round_up-pos (l * (hi - lo)) in
      (f, rw (order_le lo hi lt, sub_ℕ-le hi lo (omega arith), e) refl, least, most)
