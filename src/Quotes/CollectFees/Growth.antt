-- ===== src/Quotes/CollectFees/Growth.antt =====
-- The growth of fees inside a position.
use solana_dex_v.Prelude.{
  ℕ, ◌+◌, ◌-◌, ◌%◌, ◌^◌, ◌<◌, ◌≡◌, refl, ap, ◌∙◌, ℤ, pos, ltb_ℤ, Bool, true, false, arith,
  if◌then◌else◌,
}
use solana_dex_v.Sdk.{MathUtil}
use solana_dex_v.Quotes.CollectFees.{fee_growth_inside}

-- The growth on one side of a tick: outside it if the pool is on the other side, else the rest.
abbrev pub side : Bool → ℕ → ℕ → ℕ
side is_outside global outside =
    if is_outside then outside else (global + 2 ^ 128 - outside) % 2 ^ 128

module _ (math : MathUtil) where
  pub sub_exact :
      (g b : ℕ)
      → g < 2 ^ 128
      → b < 2 ^ 128
      → math.sub_underflow_u128 (pos g) (pos b) ≡ pos ((g + 2 ^ 128 - b) % 2 ^ 128)
  sub_exact g b hg hb = math.sub_underflow_u128-pos g b hg hb

  pub below_side :
      (b : Bool) (g o : ℕ)
      → g < 2 ^ 128
      → o < 2 ^ 128
      → (if b then math.sub_underflow_u128 (pos g) (pos o) else pos o)
        ≡ pos (side (if b then false else true) g o)
  below_side true g o hg ho = sub_exact g o hg ho
  below_side false g o hg ho = refl

  pub above_side :
      (b : Bool) (g o : ℕ)
      → g < 2 ^ 128
      → o < 2 ^ 128
      → (if b then pos o else math.sub_underflow_u128 (pos g) (pos o)) ≡ pos (side b g o)
  above_side true g o hg ho = refl
  above_side false g o hg ho = sub_exact g o hg ho

  pub side-lt : (b : Bool) (g o : ℕ) → o < 2 ^ 128 → side b g o < 2 ^ 128
  side-lt true g o h = h
  side-lt false g o h = omega arith

  pub rest :
      (g b a : ℕ) (below above : ℤ)
      → below ≡ pos b
      → above ≡ pos a
      → g < 2 ^ 128
      → b < 2 ^ 128
      → a < 2 ^ 128
      → (inside : ℕ) × (math.sub_underflow_u128 (math.sub_underflow_u128 (pos g) below) above
          ≡ pos inside)
        × (inside < 2 ^ 128)
        × ((inside + b + a) % 2 ^ 128 ≡ g)
  rest g b a below above eb ea hg hb ha =
      let first = (g + 2 ^ 128 - b) % 2 ^ 128 in
      rw (eb, ea)
        (
          (first + 2 ^ 128 - a) % 2 ^ 128,
          ap (λ (x : ℤ). math.sub_underflow_u128 x (pos a)) (sub_exact g b hg hb)
              ∙ sub_exact first a (omega arith) ha,
          omega arith,
          omega arith,
        )

  -- For growths of 128 bits, the growth inside a position is of 128 bits, and together with the
  -- growth below it and above it makes the global growth, modulo 2 ^ 128, wherever the current tick
  -- is.
  pub fee_growth_inside-Splits :
      (current lower_index upper_index : ℤ) (global lower upper : ℕ)
      → global < 2 ^ 128
      → lower < 2 ^ 128
      → upper < 2 ^ 128
      → (inside : ℕ) × (fee_growth_inside math current lower_index upper_index
            (pos global)
            (pos lower)
            (pos upper)
          ≡ pos inside)
        × (inside < 2 ^ 128)
        × ((inside
                + side (if ltb_ℤ current lower_index then false else true) global lower
                + side (ltb_ℤ current upper_index) global upper)
              % 2 ^ 128
            ≡ global)
  unfolding fee_growth_inside
  fee_growth_inside-Splits current lower_index upper_index global lower upper hg hl hu =
      rest global (side (if ltb_ℤ current lower_index then false else true) global lower)
        (side (ltb_ℤ current upper_index) global upper) _ _
        (below_side (ltb_ℤ current lower_index) global lower hg hl)
        (above_side (ltb_ℤ current upper_index) global upper hg hu) hg
        (side-lt (if ltb_ℤ current lower_index then false else true) global lower hl)
        (side-lt (ltb_ℤ current upper_index) global upper hu)
