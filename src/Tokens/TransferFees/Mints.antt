-- ===== src/Tokens/TransferFees/Mints.antt =====
-- Amounts before and after the transfer fee of a mint, with a fee or without.
use native.Mathlib.Decide.{dec_le}
use solana_dex_v.Prelude.{
  ℕ, ◌-◌, ◌*◌, ◌^◌, ◌≤◌, ◌<◌, min, ◌≡◌, ◌⊎◌, inl, inr, refl, ap, ◌∙◌, ℤ, pos, sub_ℕ-le, ◌≤ℤ◌, none,
  some, Option-cases, ok, err, error, arith,
}
use solana_dex_v.Sdk.{SplToken, IsCeil}
use solana_dex_v.Tokens.TransferFees.{
  TransferFeeAmount, amount_and_fee, exclude_fee, calculate_transfer_fee_included_amount,
  calculate_transfer_fee_excluded_amount,
}
use solana_dex_v.Tokens.TransferFees.Inverse.{exclude_fee-cases, include_fee-least}

module _ {Mint Config : Type 0} (spl : SplToken Mint Config) (mint : Mint) (epoch : ℕ) where
  -- A fee is at most the whole amount.
  abbrev pub IsRated : Type 0
  IsRated =
      (c : Config)
      → spl.get_transfer_fee_config mint ≡ some c
      → (spl.get_epoch_fee c epoch).transfer_fee_basis_points ≤ 10000

  abbrev pub net : ℕ → ℤ
  net x = (calculate_transfer_fee_excluded_amount spl (pos x) mint epoch).amount

  -- The least amount of which n is left after the fee.
  abbrev pub IsLeast : ℕ → ℕ → Type 0
  IsLeast n g = (net g ≡ pos n) × ((x : ℕ) → pos n ≤ℤ net x → g ≤ x)

  abbrev pub Included : ℕ → ℕ → Type 0
  Included n g =
      calculate_transfer_fee_included_amount spl (pos n) mint epoch
      ≡ ok (amount_and_fee (pos g) (pos (g - n)))

  -- The amount with its fee has no 64 bits.
  abbrev pub Overflows : ℕ → ℕ → Type 0
  Overflows n g =
      (calculate_transfer_fee_included_amount spl (pos n) mint epoch ≡ err error) × (2 ^ 64 - 1 < g)

  fee_bound : (x b q : ℕ) → b ≤ 10000 → IsCeil q (x * b) 10000 → q ≤ x
  fee_bound x b q h c = elim (dec_le q x) [
    | yes le ↦ le
    | no gt ↦ absurd (omega (arith, le_product x b h))
  ]
    where
      le_product : (x b : ℕ) → b ≤ 10000 → x * b ≤ x * 10000
      le_product x b h = grind arith

  net_free : spl.get_transfer_fee_config mint ≡ none → (x : ℕ) → net x ≡ pos x
  unfolding calculate_transfer_fee_excluded_amount
  net_free e x = rw (net, e, calculate_transfer_fee_excluded_amount) refl

  net_charged :
      (c : Config)
      → spl.get_transfer_fee_config mint ≡ some c
      → (x : ℕ) → net x ≡ (exclude_fee spl (spl.get_epoch_fee c epoch) (pos x)).amount
  unfolding calculate_transfer_fee_excluded_amount
  net_charged c e x = rw (net, e, calculate_transfer_fee_excluded_amount) refl

  pub net-pos : IsRated → (x : ℕ) → (m : ℕ) × (net x ≡ pos m) × (m ≤ x)
  net-pos rated x = elim (Option-cases (spl.get_transfer_fee_config mint)) [
    | inl e ↦ (x, net_free e x, omega arith)
    | inr (c, e) ↦
        let f = spl.get_epoch_fee c epoch in
        let (q, ceil, same) = exclude_fee-cases spl f x in
        let le = fee_bound x f.transfer_fee_basis_points q (rated c e) ceil in
        (
          x - min q f.maximum_fee,
          net_charged c e x
              ∙ ap (λ (a : TransferFeeAmount). a.amount) same
              ∙ sub_ℕ-le x (min q f.maximum_fee) (omega arith),
          omega arith,
        )
  ]

  pub include-IsLeast : IsRated → (n : ℕ) → (g : ℕ) × IsLeast n g × (Included n g ⊎ Overflows n g)
  unfolding calculate_transfer_fee_included_amount
  include-IsLeast rated n = elim (Option-cases (spl.get_transfer_fee_config mint)) [
    | inl e ↦ (
      n,
      (net_free e n, λ x h. omega (arith, rw (net_free e x) at h)),
      inl (
          rw (e, calculate_transfer_fee_included_amount)
            (ap (λ (k : ℕ). ok (amount_and_fee (pos n) (pos k))) (omega arith))),
    )
    | inr (c, e) ↦
        let f = spl.get_epoch_fee c epoch in
        let (g, (whole, least), cases) = include_fee-least spl f n (rated c e) in
        (
          g,
          (
            net_charged c e g ∙ ap (λ (a : TransferFeeAmount). a.amount) whole,
            λ x h. least x (rw (net_charged c e x) at h),
          ),
          rw (e, calculate_transfer_fee_included_amount) cases,
        )
  ]

  -- A deposit of n pays for an amount that is at most what is left of n: the amount with its fee
  -- fits in the deposit. A larger amount has a larger total, unless that overflows.
  pub fits_in_deposit :
      IsRated
      → (n k e m : ℕ) → net n ≡ pos k
      → e ≤ k
      → e ≤ m
      → n < 2 ^ 64
      → (g : ℕ) × (h : ℕ) × IsLeast e g
        × IsLeast m h
        × Included e g
        × (g ≤ n)
        × (g ≤ h)
        × (Included m h ⊎ Overflows m h)
  fits_in_deposit rated n k e m left le more fits =
      let (g, of_e, cases) = include-IsLeast rated e in
      let (h, of_m, more_cases) = include-IsLeast rated m in
      let g_le : g ≤ n = of_e.1 n (rw left (omega arith)) in
      (
        g,
        h,
        of_e,
        of_m,
        elim cases [ inl included ↦ included | inr over ↦ absurd (omega arith) ],
        g_le,
        of_e.1 h (rw of_m.0 (omega arith)),
        more_cases,
      )

  -- Nothing costs nothing.
  pub zero-IsLeast : IsRated → IsLeast 0 0
  zero-IsLeast rated =
      let (m, e, le) = net-pos rated 0 in
      let none_left : m ≡ 0 = omega arith in (e ∙ ap pos none_left, λ x h. omega arith)
