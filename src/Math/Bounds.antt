-- ===== src/Math/Bounds.antt =====
-- Inequalities of rounded quotients: what the formulas of swap prices and amounts rest on.
use native.Mathlib.Nat.{mul-le-mul_right, div-mul-le_self, lt-div-mul-add}
use native.Mathlib.Decide.{dec_le}
use solana_dex_v.Prelude.{ℕ, suc, ◌+◌, ◌-◌, ◌*◌, ◌/◌, ◌≤◌, ◌<◌, ◌≡◌, ap, arith}
use solana_dex_v.Sdk.{IsFloor, IsCeil}

mul_mono : (a b k : ℕ) → a ≤ b → a * k ≤ b * k
mul_mono a b k h = mul-le-mul_right k h

module _ {q n : ℕ} (d : ℕ) where
  pub ceil-le : (k : ℕ) → IsCeil q n d → n ≤ k * d → q ≤ k
  ceil-le k c h = elim (dec_le q k) [
    | yes le ↦ le
    | no gt ↦ absurd (omega (arith, mul_mono (suc k) q d (omega arith)))
  ]

  pub le-ceil : (k : ℕ) → IsCeil q n d → 0 < d → k * d ≤ n → k ≤ q
  le-ceil k c p h = elim (dec_le k q) [
    | yes le ↦ le
    | no gt ↦ absurd (omega (arith, mul_mono (suc q) k d (omega arith)))
  ]

  pub lt-ceil : (k : ℕ) → IsCeil q n d → k * d < n → k < q
  lt-ceil k c h = elim (dec_le q k) [
    | yes le ↦ absurd (omega (arith, mul_mono q k d le))
    | no gt ↦ omega arith
  ]

  -- What lies below a quotient that is rounded up, or down.
  pub lt_of_lt-ceil : (k : ℕ) → IsCeil q n d → k < q → k * d < n
  lt_of_lt-ceil k c h = omega (arith, mul_mono (suc k) q d h)

  pub le_of_le-floor : (k : ℕ) → IsFloor q n d → k ≤ q → k * d ≤ n
  le_of_le-floor k f h = omega (arith, mul_mono k q d h)

  pub le-floor : (k : ℕ) → IsFloor q n d → k * d ≤ n → k ≤ q
  le-floor k f h = elim (dec_le k q) [
    | yes le ↦ le
    | no gt ↦ absurd (omega (arith, mul_mono (suc q) k d (omega arith)))
  ]

  pub floor-le : (k : ℕ) → IsFloor q n d → n ≤ k * d → 0 < d → q ≤ k
  floor-le k f h p = elim (dec_le q k) [
    | yes le ↦ le
    | no gt ↦ absurd (omega (arith, mul_mono (suc k) q d (omega arith)))
  ]

input-gt :
    (l t e a q : ℕ) {n : ℕ}
    → IsCeil n (l * (t + e) * q) (l * q + (t + e) * a)
    → a * (t * (t + e)) < l * e * q
    → t < n
input-gt l t e a q c h = lt-ceil _ t c (omega arith)

input_amount :
    (l n f a q : ℕ) {m : ℕ}
    → IsCeil n (l * (n + f) * q) (l * q + (n + f) * a)
    → IsCeil m (l * f * q) (n * (n + f))
    → m ≤ a
input_amount l n f a q c m = ceil-le _ a m (omega arith)

output-le :
    (l p e a q d : ℕ) {n : ℕ}
    → l * q ≡ d + p * a
    → IsCeil n (l * p * q) d
    → a * (p * (p + e)) ≤ l * e * q
    → n ≤ p + e
output-le l p e a q d split c h =
    ceil-le _ (p + e) c (omega (arith, ap (λ (x : ℕ). x * (p + e)) split))

output_pays :
    (l p f a q d : ℕ) → l * q ≡ d + p * a → l * p * q ≤ (p + f) * d → a * (p * (p + f)) ≤ l * f * q
output_pays l p f a q d split h = omega (arith, ap (λ (x : ℕ). x * (p + f)) split)

fee_fits' :
    (d k rate g f : ℕ)
    → rate + g ≡ 1000000
    → IsCeil f (d * rate) g
    → d * 1000000 ≤ (d + k) * g
    → f ≤ k
fee_fits' d k rate g f split c h = ceil-le g k c (omega (arith, ap (λ (x : ℕ). d * x) split))

-- The fee on `d`, rounded up, fits beside `d` if `d` is at most the rest without the fee.
pub fee_fits :
    (d remaining rate f : ℕ)
    → rate ≤ 1000000
    → d ≤ remaining
    → IsCeil f (d * rate) (1000000 - rate)
    → d * 1000000 ≤ remaining * (1000000 - rate)
    → d + f ≤ remaining
fee_fits d remaining rate f r le c h =
    let whole : d + (remaining - d) ≡ remaining = omega arith in
    let fits : f ≤ remaining - d =
      fee_fits' d (remaining - d) rate (1000000 - rate) f (omega arith) c (rw whole h) in
    omega arith

-- Token A, an input of `a` at the price `p`: the new price `n` is never above the old one, and lies
-- above `t` if `a` is less than what moves the price to `t`.
module _ (l p a q : ℕ) {n : ℕ} (c : IsCeil n (l * p * q) (l * q + p * a)) where
  pub a_input-le : n ≤ p
  a_input-le = ceil-le _ p c (omega arith)

  pub a_input-gt : (t : ℕ) → t ≤ p → a * (t * p) < l * (p - t) * q → t < n
  a_input-gt t h k =
      let whole : t + (p - t) ≡ p = omega arith in
      input-gt l t (p - t) a q (rw whole c) (rw whole k)

  -- The input that is taken for the move to `n` is at most `a`.
  pub a_input_amount : {m : ℕ} → n ≤ p → IsCeil m (l * (p - n) * q) (n * p) → m ≤ a
  a_input_amount h m =
      let whole : n + (p - n) ≡ p = omega arith in
      input_amount l n (p - n) a q (rw whole c) (rw whole m)

-- Token A, an output of `a` at the price `p`: the new price is not below `p`, and not above `t` if
-- `a` is at most what moves the price to `t`.
module _ (l p a q d : ℕ) {n : ℕ} (split : l * q ≡ d + p * a) (d_pos : 0 < d)
    (c : IsCeil n (l * p * q) d) where
  pub a_output-ge : p ≤ n
  a_output-ge = le-ceil _ p c d_pos (omega (arith, ap (λ (x : ℕ). x * p) split))

  pub a_output-le : (t : ℕ) → p ≤ t → a * (p * t) ≤ l * (t - p) * q → n ≤ t
  a_output-le t h k =
      let whole : p + (t - p) ≡ t = omega arith in
      rw whole at (output-le l p (t - p) a q d split c (rw whole k))

  -- The move to the new price pays `a`.
  pub a_output_pays : p ≤ n → a * (p * n) ≤ l * (n - p) * q
  a_output_pays h =
      let whole : p + (n - p) ≡ n = omega arith in
      rw whole at (output_pays l p (n - p) a q d split (rw whole c.0))

-- Token B: an amount `a` moves the price by at most `e` if `a` is at most what moves it by `e`.
pub b_amount : (l e a q : ℕ) → 0 < q → a ≤ l * e / q → a * q ≤ e * l
b_amount l e a q q_pos h =
    omega (arith, le_of_le-floor q a (div-mul-le_self (l * e) q, lt-div-mul-add q_pos) h)
