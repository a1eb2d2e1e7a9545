-- ===== src/Math/TokenMath/Deltas.antt =====
-- The amounts between two prices, as rounded quotients of natural numbers.
use solana_dex_v.Prelude.{
  ℕ, ◌+◌, ◌-◌, ◌*◌, ◌/◌, ◌^◌, ◌≤◌, ◌<◌, ◌≡◌, ℤ, pos, Bool, true, false, Result, ok, err,
  token_max_exceeded, arith, ltb, if◌then◌else◌, sub_ℕ-le,
}
use native.Mathlib.Nat.{mul-pos}
use solana_dex_v.Sdk.{MathUtil}
use solana_dex_v.Math.BitMath.Rounding.{rounded, checked_mul_shift_right-ok}
use solana_dex_v.Math.TokenMath.{to_increasing_price_order, get_amount_delta_a, get_amount_delta_b}

pub order_down : (p t : ℕ) → t ≤ p → to_increasing_price_order (pos p) (pos t) ≡ (pos t, pos p)
unfolding to_increasing_price_order
order_down p t h = ground arith

pub order_up : (p t : ℕ) → p ≤ t → to_increasing_price_order (pos p) (pos t) ≡ (pos p, pos t)
unfolding to_increasing_price_order
order_up p t h = ground arith

-- The amount of token A between the prices `a` and `b` at liquidity `l`.
abbrev pub delta_a : Bool → ℕ → ℕ → ℕ → ℕ
delta_a up l a b = rounded up (l * (b - a) * 2 ^ 64) (a * b)

abbrev pub capped : ℕ → Result ℤ
capped d = if ltb (2 ^ 64 - 1) d then err token_max_exceeded else ok (pos d)

module _ (p t l : ℕ) (p_pos : 0 < p) (t_pos : 0 < t) where
  pub get_amount_delta_a-down :
      (up : Bool)
      → t ≤ p
      → get_amount_delta_a (pos p) (pos t) (pos l) up ≡ capped (delta_a up l t p)
  unfolding get_amount_delta_a rounded
  get_amount_delta_a-down true h =
      rw (order_down p t h, sub_ℕ-le p t h) (ground (arith, mul-pos t_pos p_pos))
  get_amount_delta_a-down false h =
      rw (order_down p t h, sub_ℕ-le p t h) (ground (arith, mul-pos t_pos p_pos))

  pub get_amount_delta_a-up :
      (up : Bool)
      → p ≤ t
      → get_amount_delta_a (pos p) (pos t) (pos l) up ≡ capped (delta_a up l p t)
  unfolding get_amount_delta_a rounded
  get_amount_delta_a-up true h =
      rw (order_up p t h, sub_ℕ-le t p h) (ground (arith, mul-pos p_pos t_pos))
  get_amount_delta_a-up false h =
      rw (order_up p t h, sub_ℕ-le t p h) (ground (arith, mul-pos p_pos t_pos))

-- A returned amount of token A.
pub capped-ok : (d : ℕ) {x : ℤ} → capped d ≡ ok x → (x ≡ pos d) × (d < 2 ^ 64)
capped-ok d e = ground arith

-- A returned amount of token B is the exact quotient, or, rounded up, at most one more.
abbrev pub IsDeltaB : Bool → ℕ → ℕ → ℤ → Type 0
IsDeltaB up l d x =
    (m : ℕ) × (x ≡ pos m) × (l * d / 2 ^ 64 ≤ m) × (m ≤ l * d / 2 ^ 64 + (if up then 1 else 0))

module _ (math : MathUtil) (p t l : ℕ) {x : ℤ} where
  pub get_amount_delta_b-down :
      (up : Bool)
      → t ≤ p
      → get_amount_delta_b math (pos p) (pos t) (pos l) up ≡ ok x
      → IsDeltaB up l (p - t) x
  unfolding get_amount_delta_b
  get_amount_delta_b-down up h e =
      checked_mul_shift_right-ok math l (p - t) 128 up (rw (order_down p t h, sub_ℕ-le p t h) at e)

  pub get_amount_delta_b-up :
      (up : Bool)
      → p ≤ t
      → get_amount_delta_b math (pos p) (pos t) (pos l) up ≡ ok x
      → IsDeltaB up l (t - p) x
  unfolding get_amount_delta_b
  get_amount_delta_b-up up h e =
      checked_mul_shift_right-ok math l (t - p) 128 up (rw (order_up p t h, sub_ℕ-le t p h) at e)
