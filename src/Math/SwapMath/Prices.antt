-- ===== src/Math/SwapMath/Prices.antt =====
-- A step of a swap ends between the current price and the target price.
use native.Mathlib.Nat.{mul-pos}
use solana_dex_v.Prelude.{
  ℕ, ◌+◌, ◌-◌, ◌*◌, ◌/◌, ◌^◌, ◌≤◌, ◌<◌, ◌≡◌, ◌∙◌, ℤ, pos, true, false, ok, arith, sub_ℕ-le,
}
use solana_dex_v.Sdk.{IsCeil}
use solana_dex_v.Math.Bounds
use solana_dex_v.Math.BitMath.Rounding.{rounded, rounded-Rounded}
use solana_dex_v.Math.TokenMath.{get_next_sqrt_price}
use solana_dex_v.Math.TokenMath.Deltas.{delta_a}
use solana_dex_v.Math.TokenMath.NextPrice.{
  next_price_a_input, next_price_a_output, next_price_b_input, next_price_b_output,
}

-- The price `x` is a number between `lo` and `hi`.
abbrev pub IsBetween : ℕ → ℕ → ℤ → Type 0
IsBetween lo hi x = (n : ℕ) × (x ≡ pos n) × (lo ≤ n) × (n ≤ hi)

module _ (l p t a : ℕ) (l_pos : 0 < l) (p_pos : 0 < p) (t_pos : 0 < t) {x : ℤ} where
  -- The price after an input `a` of token A that does not pay for the move to the target.
  pub a_input-price :
      t ≤ p
      → a < delta_a true l t p
      → get_next_sqrt_price (pos p) (pos l) (pos a) true true ≡ ok x
      → (n : ℕ) × (x ≡ pos n) × (t < n) × (n ≤ p) × IsCeil n (l * p * 2 ^ 64) (l * 2 ^ 64 + p * a)
  unfolding get_next_sqrt_price
  a_input-price h below e =
      let (n, en, c) = next_price_a_input p l l_pos a e in
      let moves = rounded-Rounded true (l * (p - t) * 2 ^ 64) (t * p) (mul-pos t_pos p_pos) in
      let k = Bounds.lt_of_lt-ceil (t * p) a moves below in
      (n, en, Bounds.a_input-gt l p a (2 ^ 64) c t h k, Bounds.a_input-le l p a (2 ^ 64) c, c)

  -- The price after an output of token A.
  pub a_output-price :
      p ≤ t
      → a < delta_a false l p t
      → get_next_sqrt_price (pos p) (pos l) (pos a) false false ≡ ok x
      → (n : ℕ) × (x ≡ pos n) × (p ≤ n) × (n ≤ t) × (a * (p * n) ≤ l * (n - p) * 2 ^ 64)
  unfolding get_next_sqrt_price
  a_output-price h below e =
      let (n, en, covered, c) = next_price_a_output p l l_pos a e in
      let moves = rounded-Rounded false (l * (t - p) * 2 ^ 64) (p * t) (mul-pos p_pos t_pos) in
      let k = Bounds.le_of_le-floor (p * t) a moves (omega arith) in
      let split : l * 2 ^ 64 ≡ (l * 2 ^ 64 - p * a) + p * a = omega arith in
      let ge = Bounds.a_output-ge l p a (2 ^ 64) _ split (omega arith) c in
      (
        n,
        en,
        ge,
        Bounds.a_output-le l p a (2 ^ 64) _ split (omega arith) c t h k,
        Bounds.a_output_pays l p a (2 ^ 64) _ split (omega arith) c ge,
      )

  -- The price after an input of token B that is at most what moves it to the target.
  pub b_input-price :
      p ≤ t
      → a ≤ l * (t - p) / 2 ^ 64
      → get_next_sqrt_price (pos p) (pos l) (pos a) true false ≡ ok x
      → IsBetween p t x
  unfolding get_next_sqrt_price
  b_input-price h most e =
      let q = rounded false (a * 2 ^ 64) l in
      let f = rounded-Rounded false (a * 2 ^ 64) l l_pos in
      let k = Bounds.b_amount l (t - p) a (2 ^ 64) (omega arith) most in
      let le = Bounds.floor-le l (t - p) f k l_pos in
      (p + q, next_price_b_input p l l_pos a e, omega arith, omega arith)

  -- The price after an output of token B.
  pub b_output-price :
      t ≤ p
      → a ≤ l * (p - t) / 2 ^ 64
      → get_next_sqrt_price (pos p) (pos l) (pos a) false true ≡ ok x
      → (n : ℕ) × (x ≡ pos n) × (t ≤ n) × (n ≤ p) × (a * 2 ^ 64 ≤ (p - n) * l)
  unfolding get_next_sqrt_price
  b_output-price h most e =
      let q = rounded true (a * 2 ^ 64) l in
      let c = rounded-Rounded true (a * 2 ^ 64) l l_pos in
      let k = Bounds.b_amount l (p - t) a (2 ^ 64) (omega arith) most in
      let le = Bounds.ceil-le l (p - t) c k in
      let back : p - (p - q) ≡ q = omega arith in
      (
        p - q,
        next_price_b_output p l l_pos a e ∙ sub_ℕ-le p q (omega arith),
        omega arith,
        omega arith,
        rw back c.0,
      )
