-- ===== src/Math/TokenMath/NextPrice.antt =====
-- The price after an amount, where one is returned.
use solana_dex_v.Prelude.{
  ℕ, zero, suc, ◌+◌, ◌-◌, ◌*◌, ◌^◌, ◌<◌, ◌≡◌, ℤ, pos, ◌-ℤ◌, true, false, ok, arith,
}
use solana_dex_v.Sdk.{IsCeil}
use solana_dex_v.Math.BitMath.{div_round_up}
use solana_dex_v.Math.BitMath.Rounding.{rounded, rounded-Rounded, mul-cases, div_round_up_if_lem}
use solana_dex_v.Math.TokenMath.{
  get_next_sqrt_price_from_a_round_up, get_next_sqrt_price_from_b_round_down,
}

module _ (p l : ℕ) (l_pos : 0 < l) where
  -- After an input of token A the price is a quotient that is rounded up.
  pub next_price_a_input :
      (a : ℕ) {x : ℤ}
      → get_next_sqrt_price_from_a_round_up (pos p) (pos l) (pos a) true ≡ ok x
      → (n : ℕ) × (x ≡ pos n) × IsCeil n (l * p * 2 ^ 64) (l * 2 ^ 64 + p * a)
  unfolding get_next_sqrt_price_from_a_round_up div_round_up
  next_price_a_input zero e = (p, ground arith, (omega arith, omega arith))
  next_price_a_input (suc a) e = (
    rounded true (l * p * 2 ^ 64) (l * 2 ^ 64 + p * suc a),
    ground (
      arith,
      mul-cases p (suc a) 256,
      mul-cases l p 256,
      div_round_up_if_lem (l * p * 2 ^ 64) (l * 2 ^ 64 + p * suc a) true,
    ),
    rounded-Rounded true (l * p * 2 ^ 64) (l * 2 ^ 64 + p * suc a) (omega arith),
  )

  -- So it is after an output, which the liquidity has to cover.
  pub next_price_a_output :
      (a : ℕ) {x : ℤ}
      → get_next_sqrt_price_from_a_round_up (pos p) (pos l) (pos a) false ≡ ok x
      → (n : ℕ) × (x ≡ pos n)
        × (p * a < l * 2 ^ 64)
        × IsCeil n (l * p * 2 ^ 64) (l * 2 ^ 64 - p * a)
  unfolding get_next_sqrt_price_from_a_round_up div_round_up
  next_price_a_output zero e =
      let whole : l * 2 ^ 64 - p * 0 ≡ l * 2 ^ 64 = omega arith in
      (p, ground arith, omega arith, rw whole (omega arith, omega arith))
  next_price_a_output (suc a) {x} e = (
    rounded true (l * p * 2 ^ 64) (l * 2 ^ 64 - p * suc a),
    ground (
      arith,
      mul-cases p (suc a) 256,
      mul-cases l p 256,
      div_round_up_if_lem (l * p * 2 ^ 64) (l * 2 ^ 64 - p * suc a) true,
    ),
    covered,
    rounded-Rounded true (l * p * 2 ^ 64) (l * 2 ^ 64 - p * suc a) (omega (arith, covered)),
  )
    where
      covered : p * suc a < l * 2 ^ 64
      covered = ground (arith, mul-cases p (suc a) 256, mul-cases l p 256)

  pub next_price_b_input :
      (a : ℕ) {x : ℤ}
      → get_next_sqrt_price_from_b_round_down (pos p) (pos l) (pos a) true ≡ ok x
      → x ≡ pos (p + rounded false (a * 2 ^ 64) l)
  unfolding get_next_sqrt_price_from_b_round_down
  next_price_b_input a e = ground (arith, div_round_up_if_lem (a * 2 ^ 64) l false)

  pub next_price_b_output :
      (a : ℕ) {x : ℤ}
      → get_next_sqrt_price_from_b_round_down (pos p) (pos l) (pos a) false ≡ ok x
      → x ≡ pos p -ℤ pos (rounded true (a * 2 ^ 64) l)
  unfolding get_next_sqrt_price_from_b_round_down
  next_price_b_output a e = ground (arith, div_round_up_if_lem (a * 2 ^ 64) l true)
