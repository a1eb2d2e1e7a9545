-- ===== src/Math/SwapMath/RoundingError.antt =====
-- What the rounding of the amount of token B does to a step that takes token B in.
use solana_dex_v.Prelude.{
  ℕ, ◌+◌, ◌-◌, ◌^◌, ◌<◌, ◌≡◌, ℤ, pos, negsuc, eq_ℤ, true, false, Bool, ok, arith, sub_ℕ-le,
}
use solana_dex_v.Sdk.{MathUtil}
use solana_dex_v.Math.BitMath.Rounding.{rounded, checked_mul_shift_right_lem}
use solana_dex_v.Math.TokenMath.{get_amount_delta_b, get_next_sqrt_price}
use solana_dex_v.Math.TokenMath.Deltas.{order_up}
use solana_dex_v.Math.TokenMath.NextPrice.{next_price_b_input}
use solana_dex_v.Math.SwapMath.{SwapStep, get_amount_fixed_delta, get_fee_amount, compute_swap_step}
use solana_dex_v.Math.SwapMath.Run.{Run, compute_swap_step-Run}
use solana_dex_v.Math.SwapMath.Steps.{next}

-- At the liquidity 2^64 a move of token B by `a` takes exactly `a`; it is charged as one more.
delta_b_over :
    (math : MathUtil) (p a : ℕ)
    → 0 < a
    → a < 2 ^ 64 - 1
    → get_amount_delta_b math (pos p) (pos (p + a)) (pos (2 ^ 64)) true ≡ ok (pos (a + 1))
unfolding get_amount_delta_b
delta_b_over math p a a_pos a_lt =
    let whole : p + a - p ≡ a = omega arith in
    rw (order_up p (p + a) (omega arith), sub_ℕ-le (p + a) p (omega arith), whole)
      (ground (
        arith,
        checked_mul_shift_right_lem math (2 ^ 64) a 128 (omega arith) a_pos true (omega arith),
      ))

next_exact :
    (p a : ℕ) {x : ℤ}
    → get_next_sqrt_price (pos p) (pos (2 ^ 64)) (pos a) true false ≡ ok x
    → x ≡ pos (p + a)
unfolding get_next_sqrt_price rounded
next_exact p a e = ground (arith, next_price_b_input p (2 ^ 64) (omega arith) a e)

fee_negative :
    (a : ℕ) {m x : ℤ} {b : Bool}
    → m ≡ pos (a + 1)
    → b ≡ false
    → get_fee_amount (pos a) 0 m true b ≡ ok x
    → x ≡ negsuc 0
unfolding get_fee_amount
fee_negative a em eb e = ground arith

module _ (math : MathUtil) (p e a : ℕ) (p_pos : 0 < p) (a_pos : 0 < a) (a_lt : a < e)
    (e_lt : e < 2 ^ 64 - 1) (s : SwapStep) where
  overcharged :
      Run math (pos a) 0 (pos (2 ^ 64)) (pos p) (pos (p + e)) true false s
      → (s.next_price ≡ pos (p + a)) × (s.amount_in ≡ pos (a + 1)) × (s.fee_amount ≡ negsuc 0)
  unfolding get_amount_fixed_delta
  overcharged r =
      let initial : r.initial ≡ pos (e + 1) =
        ground (arith, delta_b_over math p e (omega arith) e_lt) in
      let moved =
        next math a 0 (2 ^ 64) p (p + e) (omega arith) (omega arith) p_pos (omega arith) s true
          false r (e + 1) initial in
      let at_next : get_next_sqrt_price (pos p) (pos (2 ^ 64)) (pos a) true false
          ≡ ok s.next_price =
        ground arith in
      let price : s.next_price ≡ pos (p + a) = next_exact p a at_next in
      let go_on : eq_ℤ s.next_price (pos (p + e)) ≡ false = ground arith in
      let charged : s.amount_in ≡ pos (a + 1) =
        ground (arith, delta_b_over math p a a_pos (omega arith)) in
      (price, charged, fee_negative a charged go_on r.at_fee)

  -- A step that takes `a` of token B in, at liquidity 2^64 and no fee, and stops before its target,
  -- is charged `a + 1` with a fee of -1: the amount in passes the remaining amount.
  pub compute_swap_step_overcharges :
      compute_swap_step math (pos a) 0 (pos (2 ^ 64)) (pos p) (pos (p + e)) true false ≡ ok s
      → (s.next_price ≡ pos (p + a)) × (s.amount_in ≡ pos (a + 1)) × (s.fee_amount ≡ negsuc 0)
  compute_swap_step_overcharges h =
      overcharged
        (compute_swap_step-Run math (pos a) 0 (pos (2 ^ 64)) (pos p) (pos (p + e)) true false s h)
