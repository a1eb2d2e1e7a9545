-- ===== src/Math/SwapMath/Steps.antt =====
-- What a step of a swap guarantees, whatever the mode and the direction.
use solana_dex_v.Prelude.{
  ℕ, ◌-◌, ◌*◌, ◌/◌, ◌≤◌, ◌<◌, min, max, ◌≡◌, sym, ◌∙◌, ◌⊎◌, inl, inr, ℤ, pos, leb_ℤ, Bool, true,
  false, Result, ok, arith, if◌then◌else◌,
}
use solana_dex_v.Sdk.{MathUtil}
use solana_dex_v.Math.BitMath.{mul_div, mul_div_round_up_if}
use solana_dex_v.Math.BitMath.Rounding.{mul-cases}
use solana_dex_v.Math.TokenMath.{get_next_sqrt_price}
use solana_dex_v.Math.TokenMath.Deltas.{
  delta_a, capped-ok, get_amount_delta_a-down, get_amount_delta_a-up, get_amount_delta_b-down,
  get_amount_delta_b-up,
}
use solana_dex_v.Math.SwapMath.{
  SwapStep, get_amount_fixed_delta, get_amount_calc, compute_swap_step,
}
use solana_dex_v.Math.SwapMath.Run.{Run, compute_swap_step-Run}
use solana_dex_v.Math.SwapMath.Prices.{
  IsBetween, a_input-price, a_output-price, b_input-price, b_output-price,
}

-- The amount that moves the price.
abbrev pub amount_calc : ℕ → ℕ → Bool → ℕ
amount_calc remaining rate true = remaining * (1000000 - rate) / 1000000
amount_calc remaining rate false = remaining

pub get_amount_calc-ok :
    (remaining rate : ℕ) (is_input : Bool) {x : ℤ}
    → rate ≤ 1000000
    → get_amount_calc (pos remaining) rate is_input ≡ ok x
    → x ≡ pos (amount_calc remaining rate is_input)
unfolding get_amount_calc mul_div mul_div_round_up_if
get_amount_calc-ok remaining rate true h e =
    ground (arith, mul-cases remaining (1000000 - rate) 128)
get_amount_calc-ok remaining rate false h e = ground arith

-- A step goes to its target exactly if the amount pays for it.
pub next_price-cases :
    (d c : ℕ) (t : ℤ) (f : ℤ → Result ℤ) {i k x : ℤ}
    → i ≡ pos d
    → k ≡ pos c
    → (if leb_ℤ i k then ok t else f k) ≡ ok x
    → (d ≤ c) × (x ≡ t) ⊎ (c < d) × (f (pos c) ≡ ok x)
next_price-cases d c t f ei ek e = ground arith

-- The target lies where the direction leads: token A in lowers the price.
abbrev pub IsTowards : Bool → ℕ → ℕ → Type 0
IsTowards true p t = t ≤ p
IsTowards false p t = p ≤ t

IsBetween-target :
    (a_to_b : Bool) (p t : ℕ) {x : ℤ}
    → IsTowards a_to_b p t
    → x ≡ pos t
    → IsBetween (min p t) (max p t) x
IsBetween-target true p t h e = (t, e, omega arith, omega arith)
IsBetween-target false p t h e = (t, e, omega arith, omega arith)

widen :
    (p t lo hi : ℕ) {x : ℤ}
    → min p t ≤ lo
    → hi ≤ max p t
    → IsBetween lo hi x
    → IsBetween (min p t) (max p t) x
widen p t lo hi a b (n, e, c, d) = (n, e, omega arith, omega arith)

module _ (math : MathUtil) (remaining rate l p t : ℕ) (rate_le : rate ≤ 1000000) (l_pos : 0 < l)
    (p_pos : 0 < p) (t_pos : 0 < t) (s : SwapStep) where
  abbrev pub Runs : Bool → Bool → Type 0
  Runs is_input a_to_b = Run math (pos remaining) rate (pos l) (pos p) (pos t) is_input a_to_b s

  -- Either the target is reached, or the price is that of a move by the whole amount.
  abbrev pub Next : Bool → Bool → ℕ → Type 0
  Next is_input a_to_b d =
      (d ≤ amount_calc remaining rate is_input) × (s.next_price ≡ pos t)
      ⊎ (amount_calc remaining rate is_input < d)
        × (get_next_sqrt_price (pos p) (pos l) (pos (amount_calc remaining rate is_input)) is_input
              a_to_b
            ≡ ok s.next_price)

  pub next :
      (is_input a_to_b : Bool) (r : Runs is_input a_to_b) (d : ℕ)
      → r.initial ≡ pos d
      → Next is_input a_to_b d
  next is_input a_to_b r d e =
      next_price-cases d _ (pos t) (λ k. get_next_sqrt_price (pos p) (pos l) k is_input a_to_b) e
        (get_amount_calc-ok remaining rate is_input rate_le r.at_calc) r.at_next

  pub a_input-Next : t ≤ p → Runs true true → Next true true (delta_a true l t p)
  unfolding get_amount_fixed_delta
  a_input-Next h r =
      next true true r _
        (capped-ok _ (sym (get_amount_delta_a-down p t l p_pos t_pos true h) ∙ r.at_initial)).0

  pub a_output-Next : p ≤ t → Runs false false → Next false false (delta_a false l p t)
  unfolding get_amount_fixed_delta
  a_output-Next h r =
      next false false r _
        (capped-ok _ (sym (get_amount_delta_a-up p t l p_pos t_pos false h) ∙ r.at_initial)).0

  pub between :
      (is_input a_to_b : Bool)
      → IsTowards a_to_b p t
      → Runs is_input a_to_b
      → IsBetween (min p t) (max p t) s.next_price
  unfolding get_amount_fixed_delta
  between true true h r = elim (a_input-Next h r) [
    | inl reached ↦ IsBetween-target true p t h reached.1
    | inr moved ↦
        let (n, e, lo, hi, _) = a_input-price l p t _ l_pos p_pos t_pos h moved.0 moved.1 in
        (n, e, omega arith, omega arith)
  ]
  between false false h r = elim (a_output-Next h r) [
    | inl reached ↦ IsBetween-target false p t h reached.1
    | inr moved ↦
        let (n, e, lo, hi, _) = a_output-price l p t _ l_pos p_pos t_pos h moved.0 moved.1 in
        (n, e, omega arith, omega arith)
  ]
  between true false h r =
      let (d, e, lo, hi) = get_amount_delta_b-up math p t l true h r.at_initial in
      elim (next true false r d e) [
        | inl reached ↦ IsBetween-target false p t h reached.1
        | inr moved ↦
            widen p t p t (omega arith) (omega arith)
              (b_input-price l p t _ l_pos p_pos t_pos h (omega arith) moved.1)
      ]
  between false true h r =
      let (d, e, lo, hi) = get_amount_delta_b-down math p t l false h r.at_initial in
      elim (next false true r d e) [
        | inl reached ↦ IsBetween-target true p t h reached.1
        | inr moved ↦
            let (n, e', lo', hi', _) =
              b_output-price l p t _ l_pos p_pos t_pos h (omega arith) moved.1 in
            (n, e', omega arith, omega arith)
      ]

-- A step that returns ends between the current and the target price, in both modes and directions,
-- if liquidity and prices are positive, the fee rate is at most 100% and the target lies in the
-- direction of the trade.
pub compute_swap_step-IsBetween :
    (math : MathUtil) (remaining rate l p t : ℕ) (is_input a_to_b : Bool) (s : SwapStep)
    → rate ≤ 1000000
    → 0 < l
    → 0 < p
    → 0 < t
    → IsTowards a_to_b p t
    → compute_swap_step math (pos remaining) rate (pos l) (pos p) (pos t) is_input a_to_b ≡ ok s
    → IsBetween (min p t) (max p t) s.next_price
compute_swap_step-IsBetween math remaining rate l p t is_input a_to_b s r l_pos p_pos t_pos h e =
    between math remaining rate l p t r l_pos p_pos t_pos s is_input a_to_b h
      (compute_swap_step-Run math (pos remaining) rate (pos l) (pos p) (pos t) is_input a_to_b s e)
