-- ===== src/Math/SwapMath/Amounts.antt =====
-- The amounts and the fee of a step, against the amount that remains.
use native.Mathlib.Nat.{mul-pos, div-le_of_le-mul, mul-le-mul_left}
use solana_dex_v.Prelude.{
  ℕ, ◌+◌, ◌-◌, ◌*◌, ◌/◌, ◌^◌, ◌≤◌, ◌<◌, min, ◌≡◌, refl, sym, ◌∙◌, ◌⊎◌, inl, inr, ℤ, pos, ltb_ℤ,
  eq_ℤ, Bool, true, false, ok, arith, if◌then◌else◌, eq_ℤ_iff,
}
use solana_dex_v.Sdk.{MathUtil, IsCeil}
use solana_dex_v.Math.Bounds
use solana_dex_v.Math.BitMath.{mul_div_round_up, mul_div_round_up_if}
use solana_dex_v.Math.BitMath.Rounding.{mul-cases, rounded, rounded-Rounded}
use solana_dex_v.Math.TokenMath.{get_amount_delta_b}
use solana_dex_v.Math.TokenMath.Deltas.{
  delta_a, capped-ok, get_amount_delta_a-down, get_amount_delta_a-up, get_amount_delta_b-down,
}
use solana_dex_v.Math.SwapMath.{SwapStep, get_amount_fixed_delta, get_fee_amount, compute_swap_step}
use solana_dex_v.Math.SwapMath.Run.{Run, compute_swap_step-Run}
use solana_dex_v.Math.SwapMath.Prices.{a_input-price, a_output-price, b_output-price}
use solana_dex_v.Math.SwapMath.Steps.{a_input-Next, a_output-Next, next, IsTowards}

-- The fee on the amount that a move to the target takes.
fee-max :
    (remaining : ℤ) (rate d : ℕ) {a x : ℤ} {b : Bool}
    → rate < 1000000
    → a ≡ pos d
    → b ≡ true
    → get_fee_amount remaining rate a true b ≡ ok x
    → x ≡ pos (rounded true (d * rate) (1000000 - rate))
unfolding get_fee_amount mul_div_round_up mul_div_round_up_if rounded
fee-max remaining rate d h ea eb e = ground (arith, mul-cases d rate 128)

-- The fee of a move that stops before the target.
fee-rest :
    (remaining rate m : ℕ) {a x : ℤ} {b : Bool}
    → m ≤ remaining
    → a ≡ pos m
    → b ≡ false
    → get_fee_amount (pos remaining) rate a true b ≡ ok x
    → x ≡ pos (remaining - m)
unfolding get_fee_amount
fee-rest remaining rate m h ea eb e = ground arith

pub without_fee-le : (remaining rate : ℕ) → remaining * (1000000 - rate) / 1000000 ≤ remaining
without_fee-le remaining rate =
    div-le_of_le-mul 1000000
      (omega (arith, mul-le-mul_left {m = 1000000 - rate} {n = 1000000} remaining (omega arith)))

-- An input of `remaining` is split into what is swapped and the fee; they take all of it unless the
-- target is reached.
abbrev pub Splits : ℕ → ℕ → ℕ → SwapStep → Type 0
Splits remaining rate t s =
    (m f : ℕ) × (s.amount_in ≡ pos m)
    × (s.fee_amount ≡ pos f)
    × (m + f ≤ remaining)
    × (m ≤ remaining * (1000000 - rate) / 1000000)
    × ((s.next_price ≡ pos t) ⊎ (m + f ≡ remaining))

module _ (math : MathUtil) (remaining rate l p t : ℕ) (rate_lt : rate < 1000000) (l_pos : 0 < l)
    (p_pos : 0 < p) (t_pos : 0 < t) (s : SwapStep) where
  a_input-reached :
      (r : Run math (pos remaining) rate (pos l) (pos p) (pos t) true true s)
      → t ≤ p
      → delta_a true l t p ≤ remaining * (1000000 - rate) / 1000000
      → s.next_price ≡ pos t
      → Splits remaining rate t s
  unfolding get_amount_fixed_delta
  a_input-reached r h le e =
      let d = delta_a true l t p in
      let f = rounded true (d * rate) (1000000 - rate) in
      let i =
        (capped-ok _ (sym (get_amount_delta_a-down p t l p_pos t_pos true h) ∙ r.at_initial)).0 in
      let stop : eq_ℤ s.next_price (pos t) ≡ true = (eq_ℤ_iff _ _).1 e in
      let in_eq : s.amount_in ≡ pos d = ground arith in
      let most : d * 1000000 ≤ remaining * (1000000 - rate) =
        Bounds.le_of_le-floor {q = remaining * (1000000 - rate) / 1000000} 1000000 d
          (omega arith, omega arith) le in
      (
        d,
        f,
        in_eq,
        fee-max (pos remaining) rate d rate_lt in_eq stop r.at_fee,
        Bounds.fee_fits d remaining rate f (omega arith)
            (omega (arith, without_fee-le remaining rate))
            (rounded-Rounded true (d * rate) (1000000 - rate) (omega arith)) most,
        le,
        inl e,
      )

  a_input-moved :
      (r : Run math (pos remaining) rate (pos l) (pos p) (pos t) true true s)
      → t ≤ p
      → (n : ℕ) → s.next_price ≡ pos n
      → t < n
      → n ≤ p
      → IsCeil n (l * p * 2 ^ 64) (l * 2 ^ 64 + p * (remaining * (1000000 - rate) / 1000000))
      → Splits remaining rate t s
  unfolding get_amount_fixed_delta
  a_input-moved r h n e gt le c =
      let m = delta_a true l n p in
      let go_on : eq_ℤ s.next_price (pos t) ≡ false = ground arith in
      let in_eq : s.amount_in ≡ pos m =
        ground (arith, get_amount_delta_a-down p n l p_pos (omega arith) true le) in
      let most : m ≤ remaining * (1000000 - rate) / 1000000 =
        Bounds.a_input_amount l p _ (2 ^ 64) c le
          (rounded-Rounded true (l * (p - n) * 2 ^ 64) (n * p) (mul-pos (omega arith) p_pos)) in
      let fits : m ≤ remaining = omega (arith, without_fee-le remaining rate) in
      (
        m,
        remaining - m,
        in_eq,
        fee-rest remaining rate m fits in_eq go_on r.at_fee,
        omega arith,
        most,
        inr (omega arith),
      )

  a_input-Splits :
      t ≤ p
      → Run math (pos remaining) rate (pos l) (pos p) (pos t) true true s
      → Splits remaining rate t s
  a_input-Splits h r =
      elim (a_input-Next math remaining rate l p t (omega arith) l_pos p_pos t_pos s h r) [
        | inl reached ↦ a_input-reached r h reached.0 reached.1
        | inr moved ↦
            let (n, e, gt, le, c) = a_input-price l p t _ l_pos p_pos t_pos h moved.0 moved.1 in
            a_input-moved r h n e gt le c
      ]

  -- An output that does not reach its target delivers all that remains.
  abbrev pub Delivers : Type 0
  Delivers =
      (o : ℕ) × (s.amount_out ≡ pos o)
      × (o ≤ remaining)
      × ((s.next_price ≡ pos t) ⊎ (o ≡ remaining))

  -- The cap of an output.
  output_cap :
      (d : ℕ) (x : ℤ)
      → x ≡ pos d
      → s.amount_out ≡ (if ltb_ℤ (pos remaining) x then pos remaining else x)
      → s.amount_out ≡ pos (min d remaining)
  output_cap d x ex e = ground arith

  capped_delivers :
      (d : ℕ) (x : ℤ)
      → x ≡ pos d
      → s.next_price ≡ pos t
      → s.amount_out ≡ (if ltb_ℤ (pos remaining) x then pos remaining else x)
      → Delivers
  capped_delivers d x ex reached e =
      (min d remaining, output_cap d x ex e, omega arith, inl reached)

  all_delivered :
      (d : ℕ) (x : ℤ)
      → x ≡ pos d
      → remaining ≤ d
      → s.amount_out ≡ (if ltb_ℤ (pos remaining) x then pos remaining else x)
      → Delivers
  all_delivered d x ex enough e = (remaining, ground arith, omega arith, inr refl)

  a_output_delivers :
      p ≤ t → Run math (pos remaining) rate (pos l) (pos p) (pos t) false false s → Delivers
  unfolding get_amount_fixed_delta
  a_output_delivers h r =
      let i =
        (capped-ok _ (sym (get_amount_delta_a-up p t l p_pos t_pos false h) ∙ r.at_initial)).0 in
      elim (a_output-Next math remaining rate l p t (omega arith) l_pos p_pos t_pos s h r) [
        | inl reached ↦
            let stop : eq_ℤ s.next_price (pos t) ≡ true = (eq_ℤ_iff _ _).1 reached.1 in
            let fixed : r.fixed ≡ pos (delta_a false l p t) = ground arith in
            capped_delivers _ r.fixed fixed reached.1 r.out_eq
        | inr moved ↦
            let (n, e, ge, le, pays) = a_output-price l p t _ l_pos p_pos t_pos h moved.0 moved.1 in
            let n_pos : 0 < n = omega arith in
            let d = delta_a false l p n in
            let enough : remaining ≤ d =
              Bounds.le-floor (p * n) remaining
                (rounded-Rounded false (l * (n - p) * 2 ^ 64) (p * n) (mul-pos p_pos n_pos)) pays in
            let fixed : (r.fixed ≡ pos d) ⊎ (r.fixed ≡ pos (delta_a false l p t)) =
              ground (arith, get_amount_delta_a-up p n l p_pos n_pos false ge) in
            elim fixed [
              | inl short ↦ all_delivered d r.fixed short enough r.out_eq
              | inr far ↦
                  all_delivered (delta_a false l p t) r.fixed far (omega (arith, moved.0)) r.out_eq
            ]
      ]

  b_output_delivers :
      t ≤ p → Run math (pos remaining) rate (pos l) (pos p) (pos t) false true s → Delivers
  unfolding get_amount_fixed_delta
  b_output_delivers h r =
      let (i, ei, lo, hi) = get_amount_delta_b-down math p t l false h r.at_initial in
      elim (next math remaining rate l p t (omega arith) l_pos p_pos t_pos s false true r i ei) [
        | inl reached ↦
            let stop : eq_ℤ s.next_price (pos t) ≡ true = (eq_ℤ_iff _ _).1 reached.1 in
            let fixed : r.fixed ≡ pos i = ground arith in
            capped_delivers _ r.fixed fixed reached.1 r.out_eq
        | inr moved ↦
            let (n, e, ge, le, pays) =
              b_output-price l p t _ l_pos p_pos t_pos h (omega arith) moved.1 in
            let enough : remaining ≤ l * (p - n) / 2 ^ 64 =
              Bounds.le-floor {n = l * (p - n)} (2 ^ 64) remaining (omega arith, omega arith)
                (omega (arith, pays)) in
            let fixed : (r.fixed ≡ pos i)
                ⊎ (get_amount_delta_b math (pos p) (pos n) (pos l) false ≡ ok r.fixed) =
              ground arith in
            elim fixed [
              | inl far ↦ all_delivered i r.fixed far (omega (arith, moved.0)) r.out_eq
              | inr short ↦
                  let (d, ed, lo', hi') = get_amount_delta_b-down math p n l false le short in
                  all_delivered d r.fixed ed (omega arith) r.out_eq
            ]
      ]

  output_delivers :
      (a_to_b : Bool)
      → IsTowards a_to_b p t
      → Run math (pos remaining) rate (pos l) (pos p) (pos t) false a_to_b s
      → Delivers
  output_delivers true h r = b_output_delivers h r
  output_delivers false h r = a_output_delivers h r

  -- An input of token A, in a step that returns, is split without loss: what is swapped is at most
  -- the part of the remaining amount that is not the fee rate's, neither it nor the fee is negative,
  -- together they do not pass the remaining amount, and they are all of it unless the step reaches
  -- its target. (The fee rate is below 100%, liquidity and prices are positive, and the target is not
  -- above the price.)
  pub compute_swap_step-Splits :
      t ≤ p
      → compute_swap_step math (pos remaining) rate (pos l) (pos p) (pos t) true true ≡ ok s
      → Splits remaining rate t s
  compute_swap_step-Splits h e =
      a_input-Splits h
        (compute_swap_step-Run math (pos remaining) rate (pos l) (pos p) (pos t) true true s e)

  -- An output, in a step that returns, is never more than what remains, and is all that remains
  -- unless the step reaches its target; in either direction. (The fee rate is below 100%, liquidity
  -- and prices are positive, and the target lies in the direction of the trade.)
  pub compute_swap_step-Delivers :
      (a_to_b : Bool)
      → IsTowards a_to_b p t
      → compute_swap_step math (pos remaining) rate (pos l) (pos p) (pos t) false a_to_b ≡ ok s
      → Delivers
  compute_swap_step-Delivers a_to_b h e =
      output_delivers a_to_b h
        (compute_swap_step-Run math (pos remaining) rate (pos l) (pos p) (pos t) false a_to_b s e)
