-- ===== src/Price/PriceMath/Sides.antt =====
-- The price of every tick can be computed, without a shift that loses a bit, and is on its side of 1.
use native.Mathlib.Nat.{mul-le-mul_right}
use solana_dex_v.Prelude.{
  ℕ, zero, suc, ◌*◌, ◌/◌, ◌%◌, ◌^◌, ◌≤◌, ◌<◌, ◌≡◌, refl, ap, ℤ, pos, negsuc, true, List, [], ◌∷◌,
  ok, arith, ltb, ltb_ℤ, if◌then◌else◌, Bool-cases, inl, inr,
}
use solana_dex_v.Price.PriceMath.{
  BnBits, has_bit, signed_shift_right, apply_factors, positive_factors, negative_factors,
  tick_index_to_sqrt_price_positive, tick_index_to_sqrt_price_negative,
  tick_index_to_sqrt_price_x64,
}

-- Each factor is at least 1, and the ratio stays below the sign bit if all are applied to `hi`.
abbrev Rises : List (ℕ × ℕ) → ℕ → Type 0
Rises [] hi = hi < 2 ^ 159
Rises (f ∷ fs) hi = (2 ^ 96 ≤ f.1) × Rises fs (hi * f.1 / 2 ^ 96)

-- Each factor is at most 1, and the ratio stays positive if all are applied to `lo`.
abbrev Falls : List (ℕ × ℕ) → ℕ → Type 0
Falls [] lo = 0 < lo
Falls (f ∷ fs) lo = (f.1 ≤ 2 ^ 64) × Falls fs (lo * f.1 / 2 ^ 64)

positive-Rises : Rises positive_factors 79232123823359799118286999567
positive-Rises = ground arith

negative-Falls : Falls negative_factors 18445821805675392311
negative-Falls = ground arith

rise_le : (r f : ℕ) → 2 ^ 96 ≤ f → r ≤ r * f / 2 ^ 96
rise_le r f h = omega (arith, mul-le-mul_right {m = 2 ^ 96} {n = f} r h)

fall_le : (r f : ℕ) → f ≤ 2 ^ 64 → r * f / 2 ^ 64 ≤ r
fall_le r f h = omega (arith, mul-le-mul_right {m = f} {n = 2 ^ 64} r h)

scale_mono : (r s f : ℕ) → r ≤ s → r * f / 2 ^ 96 ≤ s * f / 2 ^ 96
scale_mono r s f h = omega (arith, mul-le-mul_right {m = r} {n = s} f h)

scale_mono' : (r s f : ℕ) → r ≤ s → r * f / 2 ^ 64 ≤ s * f / 2 ^ 64
scale_mono' r s f h = omega (arith, mul-le-mul_right {m = r} {n = s} f h)

Rises-lt : (fs : List (ℕ × ℕ)) (hi : ℕ) → Rises fs hi → hi < 2 ^ 159
Rises-lt [] hi h = h
Rises-lt (f ∷ fs) hi h = omega (arith, rise_le hi f.1 h.0, Rises-lt fs (hi * f.1 / 2 ^ 96) h.1)

module _ (bits : BnBits) where
  shift_96 :
      (n : ℕ)
      → n / 2 ^ 96 < 2 ^ 159
      → signed_shift_right bits (pos n) 96 256 ≡ ok (pos (n / 2 ^ 96))
  unfolding signed_shift_right
  shift_96 n h =
      let masked : n / 2 ^ 96 % 2 ^ 161 ≡ n / 2 ^ 96 = omega arith in
      rw (bits.to_twos-pos n 256, masked) (ap ok (bits.from_twos-pos (n / 2 ^ 96) 159 h))

  shift_64 :
      (n : ℕ)
      → n / 2 ^ 64 < 2 ^ 191
      → signed_shift_right bits (pos n) 64 256 ≡ ok (pos (n / 2 ^ 64))
  unfolding signed_shift_right
  shift_64 n h =
      let masked : n / 2 ^ 64 % 2 ^ 193 ≡ n / 2 ^ 64 = omega arith in
      rw (bits.to_twos-pos n 256, masked) (ap ok (bits.from_twos-pos (n / 2 ^ 64) 191 h))

  shift_32 :
      (n : ℕ)
      → n / 2 ^ 32 < 2 ^ 223
      → signed_shift_right bits (pos n) 32 256 ≡ ok (pos (n / 2 ^ 32))
  unfolding signed_shift_right
  shift_32 n h =
      let masked : n / 2 ^ 32 % 2 ^ 225 ≡ n / 2 ^ 32 = omega arith in
      rw (bits.to_twos-pos n 256, masked) (ap ok (bits.from_twos-pos (n / 2 ^ 32) 223 h))

  apply_factors-Rises :
      (tick : ℕ) (fs : List (ℕ × ℕ)) (r hi : ℕ)
      → r ≤ hi
      → Rises fs hi
      → (q : ℕ) × (apply_factors bits tick 96 fs (pos r) ≡ ok (pos q)) × (r ≤ q) × (q < 2 ^ 159)
  unfolding apply_factors
  apply_factors-Rises tick [] r hi le h = (r, refl, omega arith, omega arith)
  apply_factors-Rises tick (f ∷ fs) r hi le h = elim (Bool-cases (has_bit tick f.0)) [
    | inl on ↦
        let more = scale_mono r hi f.1 le in
        let below = Rises-lt fs (hi * f.1 / 2 ^ 96) h.1 in
        let (q, e, ge, lt) =
          apply_factors-Rises tick fs (r * f.1 / 2 ^ 96) (hi * f.1 / 2 ^ 96) more h.1 in
        (q, rw (on, shift_96 (r * f.1) (omega arith)) e, omega (arith, rise_le r f.1 h.0), lt)
    | inr off ↦
        let (q, e, ge, lt) =
          apply_factors-Rises tick fs r (hi * f.1 / 2 ^ 96) (omega (arith, rise_le hi f.1 h.0))
            h.1 in
        (q, rw off e, ge, lt)
  ]

  apply_factors-Falls :
      (tick : ℕ) (fs : List (ℕ × ℕ)) (r lo : ℕ)
      → lo ≤ r
      → r ≤ 2 ^ 64
      → Falls fs lo
      → (q : ℕ) × (apply_factors bits tick 64 fs (pos r) ≡ ok (pos q)) × (q ≤ r) × (0 < q)
  unfolding apply_factors
  apply_factors-Falls tick [] r lo le top h = (r, refl, omega arith, omega arith)
  apply_factors-Falls tick (f ∷ fs) r lo le top h = elim (Bool-cases (has_bit tick f.0)) [
    | inl on ↦
        let less = fall_le r f.1 h.0 in
        let (q, e, ge, lt) =
          apply_factors-Falls tick fs (r * f.1 / 2 ^ 64) (lo * f.1 / 2 ^ 64)
            (scale_mono' lo r f.1 le) (omega arith) h.1 in
        (q, rw (on, shift_64 (r * f.1) (omega arith)) e, omega arith, lt)
    | inr off ↦
        let (q, e, ge, lt) =
          apply_factors-Falls tick fs r (lo * f.1 / 2 ^ 64) (omega (arith, fall_le lo f.1 h.0)) top
            h.1 in
        (q, rw off e, ge, lt)
  ]

  positive_price :
      (tick : ℕ)
      → (p : ℕ) × (tick_index_to_sqrt_price_positive bits tick ≡ ok (pos p))
        × (2 ^ 64 ≤ p)
        × (p < 2 ^ 127)
  unfolding tick_index_to_sqrt_price_positive
  positive_price tick = elim (Bool-cases (has_bit tick 1)) [
    | inl odd ↦
        let (q, e, ge, lt) =
          apply_factors-Rises tick positive_factors 79232123823359799118286999567
            79232123823359799118286999567 (omega arith) positive-Rises in
        (q / 2 ^ 32, rw (odd, e) (shift_32 q (omega arith)), omega arith, omega arith)
    | inr even ↦
        let (q, e, ge, lt) =
          apply_factors-Rises tick positive_factors 79228162514264337593543950336
            79232123823359799118286999567 (omega arith) positive-Rises in
        (q / 2 ^ 32, rw (even, e) (shift_32 q (omega arith)), omega arith, omega arith)
  ]

  negative_price :
      (tick : ℕ)
      → (p : ℕ) × (tick_index_to_sqrt_price_negative bits tick ≡ ok (pos p))
        × (p ≤ 2 ^ 64)
        × (0 < p)
  unfolding tick_index_to_sqrt_price_negative
  negative_price tick = elim (Bool-cases (has_bit tick 1)) [
    | inl odd ↦
        let (q, e, le, gt) =
          apply_factors-Falls tick negative_factors 18445821805675392311 18445821805675392311
            (omega arith) (omega arith) negative-Falls in
        (q, rw odd e, omega arith, gt)
    | inr even ↦
        let (q, e, le, gt) =
          apply_factors-Falls tick negative_factors 18446744073709551616 18445821805675392311
            (omega arith) (omega arith) negative-Falls in
        (q, rw even e, omega arith, gt)
  ]

  -- Every tick has a price: a positive number below 2 ^ 127, of at least 1 (2 ^ 64) for a positive
  -- tick and at most 1 for any other.
  pub tick_index_to_sqrt_price_x64-side :
      (tick : ℤ)
      → (p : ℕ) × (tick_index_to_sqrt_price_x64 bits tick ≡ ok (pos p))
        × (0 < p)
        × (p < 2 ^ 127)
        × (if ltb_ℤ (pos 0) tick then 2 ^ 64 ≤ p else p ≤ 2 ^ 64)
  unfolding tick_index_to_sqrt_price_x64
  tick_index_to_sqrt_price_x64-side (pos zero) =
      let (p, e, le, gt) = negative_price 0 in (p, e, gt, omega arith, le)
  tick_index_to_sqrt_price_x64-side (pos (suc n)) =
      let (p, e, ge, lt) = positive_price (suc n) in
      let up : ltb 0 (suc n) ≡ true = ground arith in (p, rw up e, omega arith, lt, rw up ge)
  tick_index_to_sqrt_price_x64-side (negsuc n) =
      let (p, e, le, gt) = negative_price (suc n) in (p, e, gt, omega arith, le)
