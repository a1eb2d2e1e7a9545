-- ===== src/Quotes/CollectRewards/Inside.antt =====
-- The growth of a reward inside a position, and the reward that it adds.
use solana_dex_v.Prelude.{
  ℕ, ◌+◌, ◌-◌, ◌*◌, ◌/◌, ◌%◌, ◌^◌, ◌<◌, ◌≡◌, refl, ap, ℤ, pos, ltb_ℤ, Bool, true, false, ok, arith,
  if◌then◌else◌,
}
use solana_dex_v.Sdk.{MathUtil}
use solana_dex_v.Quotes.CollectFees.{fee_owed_delta}
use solana_dex_v.Quotes.CollectFees.Growth.{side, sub_exact, below_side, above_side, side-lt, rest}
use solana_dex_v.Quotes.CollectRewards.{reward_growth_inside, amount_owed}

-- The growth below a lower tick and above an upper tick; a tick that is not initialized has all of
-- the growth below it, and none above.
abbrev pub below_of : Bool → Bool → ℕ → ℕ → ℕ
below_of initialized is_below global lower =
    if initialized then side (if is_below then false else true) global lower else global

abbrev pub above_of : Bool → Bool → ℕ → ℕ → ℕ
above_of initialized is_below global upper = if initialized then side is_below global upper else 0

module _ (math : MathUtil) where
  below_eq :
      (initialized b : Bool) (g o : ℕ)
      → g < 2 ^ 128
      → o < 2 ^ 128
      → (if initialized
          then if b then math.sub_underflow_u128 (pos g) (pos o) else pos o
          else pos g)
        ≡ pos (below_of initialized b g o)
  below_eq true b g o hg ho = below_side math b g o hg ho
  below_eq false b g o hg ho = refl

  above_eq :
      (initialized b : Bool) (g o : ℕ)
      → g < 2 ^ 128
      → o < 2 ^ 128
      → (if initialized
          then if b then pos o else math.sub_underflow_u128 (pos g) (pos o)
          else pos 0)
        ≡ pos (above_of initialized b g o)
  above_eq true b g o hg ho = above_side math b g o hg ho
  above_eq false b g o hg ho = refl

  below-lt :
      (initialized b : Bool) (g o : ℕ)
      → g < 2 ^ 128
      → o < 2 ^ 128
      → below_of initialized b g o < 2 ^ 128
  below-lt true b g o hg ho = side-lt math (if b then false else true) g o ho
  below-lt false b g o hg ho = hg

  above-lt : (initialized b : Bool) (g o : ℕ) → o < 2 ^ 128 → above_of initialized b g o < 2 ^ 128
  above-lt true b g o ho = side-lt math b g o ho
  above-lt false b g o ho = omega arith

  -- For growths of 128 bits, a reward's growth inside a position is of 128 bits, and with the growth
  -- below it and above it makes the global growth, modulo 2 ^ 128. A lower tick that is not
  -- initialized counts all growth as below it, and an upper one none as above it.
  pub reward_growth_inside-Splits :
      (current lower_index upper_index : ℤ) (global lower upper : ℕ) (lower_on upper_on : Bool)
      → global < 2 ^ 128
      → lower < 2 ^ 128
      → upper < 2 ^ 128
      → (inside : ℕ) × (reward_growth_inside math current lower_index upper_index
            (pos global)
            lower_on
            (pos lower)
            upper_on
            (pos upper)
          ≡ pos inside)
        × (inside < 2 ^ 128)
        × ((inside
                + below_of lower_on (ltb_ℤ current lower_index) global lower
                + above_of upper_on (ltb_ℤ current upper_index) global upper)
              % 2 ^ 128
            ≡ global)
  unfolding reward_growth_inside
  reward_growth_inside-Splits current lower_index upper_index global lower upper lower_on upper_on
        hg hl hu =
      rest math global (below_of lower_on (ltb_ℤ current lower_index) global lower)
        (above_of upper_on (ltb_ℤ current upper_index) global upper) _ _
        (below_eq lower_on (ltb_ℤ current lower_index) global lower hg hl)
        (above_eq upper_on (ltb_ℤ current upper_index) global upper hg hu) hg
        (below-lt lower_on (ltb_ℤ current lower_index) global lower hg hl)
        (above-lt upper_on (ltb_ℤ current upper_index) global upper hu)

  -- The reward that a position is owed is what it was owed, and for the growth since its checkpoint
  -- what a fee of the same growth would be.
  pub amount_owed-fee_owed_delta :
      (owed inside checkpoint liquidity : ℕ)
      → inside < 2 ^ 128
      → checkpoint < 2 ^ 128
      → (d : ℕ) × (fee_owed_delta math (pos inside) (pos checkpoint) (pos liquidity) ≡ ok (pos d))
        × (amount_owed math (pos owed) (pos inside) (pos checkpoint) (pos liquidity)
            ≡ ok (pos (owed + d)))
  unfolding fee_owed_delta amount_owed
  amount_owed-fee_owed_delta owed inside checkpoint liquidity hi hc =
      let delta = (inside + 2 ^ 128 - checkpoint) % 2 ^ 128 * liquidity in
      rw (sub_exact math inside checkpoint hi hc)
        (delta / 2 ^ 64, refl, ap (λ (n : ℕ). ok (pos n)) (omega arith))
