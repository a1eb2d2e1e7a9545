-- ===== src/Tokens/TransferFees/Inverse.antt =====
-- The amount that includes the fee is the inverse of the amount without the fee.
use native.Mathlib.Decide.{dec_lt, dec_le}
use native.Mathlib.Nat.{div-add-mod', mod-lt, mul-le-mul_right}
use solana_dex_v.Prelude.{
  ℕ, false, zero, suc, ◌+◌, ◌-◌, ◌*◌, ◌/◌, ◌^◌, ◌≤◌, ◌<◌, min, ◌≡◌, ◌⊎◌, inl, inr, refl, sym, ap,
  ◌∙◌, ◌==◌, Bool-cases, ==_iff, pos, sub_ℕ, ◌≤ℤ◌, ok, err, error, arith, sub_ℕ-le,
}
use solana_dex_v.Sdk.{TransferFee, SplToken, IsCeil}
use solana_dex_v.Tokens.TransferFees.{
  TransferFeeAmount, amount_and_fee, ceil_div_bn, include_whole, include_part, include_fee,
  exclude_fee,
}

pub quotient_up-IsCeil : (n d : ℕ) → 0 < d → IsCeil ((n + (d - 1)) / d) n d
quotient_up-IsCeil n d h = (
  omega (arith, div-add-mod' (n + (d - 1)) d, mod-lt (n + (d - 1)) h),
  omega (arith, div-add-mod' (n + (d - 1)) d, mod-lt (n + (d - 1)) h),
)

module _ (b d : ℕ) (whole : b + d ≡ 10000) where
  split_product : (x : ℕ) → x * b + x * d ≡ 10000 * x
  split_product x = omega (arith, ap (λ (y : ℕ). x * y) whole)

  net-raw :
      (n raw q : ℕ)
      → IsCeil raw (n * 10000) d
      → IsCeil q (raw * b) 10000
      → (q + n ≡ raw) × (n ≤ raw)
  net-raw n raw q r c = (omega (arith, split_product raw), omega (arith, split_product raw))

  raw-above : (n raw : ℕ) → IsCeil raw (n * 10000) d → n ≤ raw
  raw-above n raw r = omega (arith, split_product raw)

  net-capped :
      (n m raw q : ℕ)
      → IsCeil raw (n * 10000) d
      → n + m ≤ raw
      → IsCeil q ((n + m) * b) 10000
      → m ≤ q
  net-capped n m raw q r le c =
      omega (arith, split_product (n + m), mul-le-mul_right {m = n + m} {n = raw} d le)

  -- A gross amount from which a fee of `q` leaves `n` is at least the rounded quotient.
  raw-least :
      (n raw x q : ℕ) → IsCeil raw (n * 10000) d → IsCeil q (x * b) 10000 → n + q ≤ x → raw ≤ x
  raw-least n raw x q r c h = elim (dec_le raw x) [
    | yes le ↦ le
    | no gt ↦
        absurd
          (omega (arith, split_product x, mul-le-mul_right {m = suc x} {n = raw} d (omega arith)))
  ]

nonzero : (k : ℕ) → (suc k == 0) ≡ false
nonzero k = ground arith

fee_parts :
    (g k n : ℕ)
    → k + n ≡ g
    → amount_and_fee (sub_ℕ g k) (pos k) ≡ amount_and_fee (pos n) (pos (g - n))
fee_parts g k n h = ground arith

left-below :
    (n x k : ℕ) (r : TransferFeeAmount)
    → r ≡ amount_and_fee (sub_ℕ x k) (pos k)
    → pos n ≤ℤ r.amount
    → n + k ≤ x
left-below n x k r e h =
    let left : r.amount ≡ sub_ℕ x k = ap (λ (a : TransferFeeAmount). a.amount) e in ground arith

module _ {Mint Config : Type 0} (spl : SplToken Mint Config) (f : TransferFee) where
  pub exclude_fee-cases :
      (x : ℕ)
      → (q : ℕ) × IsCeil q (x * f.transfer_fee_basis_points) 10000
        × (exclude_fee spl f (pos x)
            ≡ amount_and_fee (sub_ℕ x (min q f.maximum_fee)) (pos (min q f.maximum_fee)))
  unfolding exclude_fee
  exclude_fee-cases x = let (q, c, e) = spl.calculate_fee-pos f x in (q, c, rw e refl)

  -- The least gross amount of which at least `n` is left; all of it but `n` is the fee.
  abbrev pub IsGross : ℕ → ℕ → Type 0
  IsGross n g =
      (exclude_fee spl f (pos g) ≡ amount_and_fee (pos n) (pos (g - n)))
      × ((x : ℕ) → pos n ≤ℤ (exclude_fee spl f (pos x)).amount → g ≤ x)

  IsGross-of :
      (n g : ℕ)
      → ((q : ℕ) → IsCeil q (g * f.transfer_fee_basis_points) 10000 → min q f.maximum_fee + n ≡ g)
      → ((x q : ℕ)
          → IsCeil q (x * f.transfer_fee_basis_points) 10000
          → n + min q f.maximum_fee ≤ x
          → g ≤ x)
      → IsGross n g
  IsGross-of n g net least = (
    let (q, c, e) = exclude_fee-cases g in
        let fee = net q c in e ∙ fee_parts g (min q f.maximum_fee) n fee,
    λ x h.
        let (q, c, e) = exclude_fee-cases x in
        least x q c (left-below n x (min q f.maximum_fee) (exclude_fee spl f (pos x)) e h),
  )

  include_whole-cases :
      (n : ℕ)
      → (include_whole f (pos n)
          ≡ ok (amount_and_fee (pos (n + f.maximum_fee)) (pos (n + f.maximum_fee - n))))
        ⊎ ((include_whole f (pos n) ≡ err error) × (2 ^ 64 - 1 < n + f.maximum_fee))
  unfolding include_whole
  include_whole-cases n = elim (dec_lt (2 ^ 64 - 1) (n + f.maximum_fee)) [
    | yes over ↦ inr (ground arith, over)
    | no under ↦ inl (ground arith)
  ]

  include_part-cases :
      (n d g : ℕ)
      → f.transfer_fee_basis_points + d ≡ 10000
      → 0 < d
      → n ≤ (n * 10000 + (d - 1)) / d
      → min ((n * 10000 + (d - 1)) / d) (n + f.maximum_fee) ≡ g
      → (include_part f (pos n) ≡ ok (amount_and_fee (pos g) (pos (g - n))))
        ⊎ ((include_part f (pos n) ≡ err error) × (2 ^ 64 - 1 < g))
  unfolding include_part ceil_div_bn
  include_part-cases n d g whole pos_d le e =
      let denom : (10000 - f.transfer_fee_basis_points) ≡ d = omega arith in
      elim (dec_lt (2 ^ 64 - 1) g) [
        | yes over ↦ inr (
          rw (sub_ℕ-le 10000 f.transfer_fee_basis_points (omega arith), denom) (ground arith),
          over,
        )
        | no under ↦
            inl
              (rw (sub_ℕ-le 10000 f.transfer_fee_basis_points (omega arith), denom) (ground arith))
      ]

  part-IsGross :
      (n d raw : ℕ)
      → f.transfer_fee_basis_points + d ≡ 10000
      → IsCeil raw (n * 10000) d
      → IsGross n (min raw (n + f.maximum_fee))
  part-IsGross n d raw whole r = IsGross-of n (min raw (n + f.maximum_fee)) net (λ x q c le.
      elim (dec_le q f.maximum_fee) [
        | yes small ↦
            let least = raw-least f.transfer_fee_basis_points d whole n raw x q r c (omega arith) in
            omega arith
        | no large ↦ omega arith
      ])
    where
      net :
          (q : ℕ)
          → IsCeil q (min raw (n + f.maximum_fee) * f.transfer_fee_basis_points) 10000
          → min q f.maximum_fee + n ≡ min raw (n + f.maximum_fee)
      net q c = elim (dec_le raw (n + f.maximum_fee)) [
        | yes le ↦
            let e : min raw (n + f.maximum_fee) ≡ raw = omega arith in
            let exact = net-raw f.transfer_fee_basis_points d whole n raw q r (rw (sym e) c) in
            omega arith
        | no gt ↦
            let e : min raw (n + f.maximum_fee) ≡ n + f.maximum_fee = omega arith in
            let capped =
              net-capped f.transfer_fee_basis_points d whole n f.maximum_fee raw q r (omega arith)
                (rw (sym e) c) in
            omega arith
      ]

  no_fee : f.transfer_fee_basis_points ≡ 0 → (n : ℕ) → IsGross n n
  no_fee e n =
      IsGross-of n n (λ q c. omega (arith, ap (λ (b : ℕ). n * b) e)) (λ x q c le. omega arith)

  nothing : IsGross 0 0
  nothing = IsGross-of 0 0 (λ q c. omega arith) (λ x q c le. omega arith)

  all_fee : f.transfer_fee_basis_points ≡ 10000 → (n : ℕ) → 0 < n → IsGross n (n + f.maximum_fee)
  all_fee e n h =
      IsGross-of n (n + f.maximum_fee)
        (λ q c. omega (arith, ap (λ (b : ℕ). (n + f.maximum_fee) * b) e))
        (λ x q c le. omega (arith, ap (λ (b : ℕ). x * b) e))

  -- For a rate of at most 10000 basis points: the amount that a fee is included in is the least one
  -- of which, after the fee, at least the given amount is left; exactly that amount is left of it,
  -- and the rest is the fee that is reported. The call fails only where that least amount exceeds
  -- 64 bits.
  pub include_fee-least :
      (n : ℕ)
      → f.transfer_fee_basis_points ≤ 10000
      → (g : ℕ) × IsGross n g
        × ((include_fee f (pos n) ≡ ok (amount_and_fee (pos g) (pos (g - n))))
            ⊎ ((include_fee f (pos n) ≡ err error) × (2 ^ 64 - 1 < g)))
  unfolding include_fee
  include_fee-least zero h = elim (Bool-cases (f.transfer_fee_basis_points == 0)) [
    | inl free ↦ (0, nothing, inl (rw free refl))
    | inr charged ↦ (0, nothing, inl (rw charged refl))
  ]
  include_fee-least (suc k) h = elim (Bool-cases (f.transfer_fee_basis_points == 0)) [
    | inl free ↦ (
      suc k,
      no_fee ((==_iff f.transfer_fee_basis_points 0).0 free) (suc k),
      inl (rw free (ap (λ (x : ℕ). ok (amount_and_fee (pos (suc k)) (pos x))) (omega arith))),
    )
    | inr charged ↦ elim (Bool-cases (f.transfer_fee_basis_points == 10000)) [
      | inl all ↦ (
        suc k + f.maximum_fee,
        all_fee ((==_iff f.transfer_fee_basis_points 10000).0 all) (suc k) (omega arith),
        rw (charged, nonzero k, all) (include_whole-cases (suc k)),
      )
      | inr part ↦
          let d = 10000 - f.transfer_fee_basis_points in
          let pos_d : 0 < d = ground arith in
          let whole : f.transfer_fee_basis_points + d ≡ 10000 = omega arith in
          let r = quotient_up-IsCeil (suc k * 10000) d pos_d in
          (
            min ((suc k * 10000 + (d - 1)) / d) (suc k + f.maximum_fee),
            part-IsGross (suc k) d ((suc k * 10000 + (d - 1)) / d) whole r,
            rw (charged, nonzero k, part)
                (include_part-cases (suc k) d _ whole pos_d
                  (raw-above f.transfer_fee_basis_points d whole (suc k) _ r) refl),
          )
    ]
  ]
