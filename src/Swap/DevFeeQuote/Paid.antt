-- ===== src/Swap/DevFeeQuote/Paid.antt =====
-- What a swap with a developer fee costs.
use mathlib.Core.Path.{◌∙◌, sym, ap}
use native.Mathlib.Nat.{
  zero-div, div-mul-le_self, lt-div-mul-add, lt_of_mul-lt-mul_right, mul-lt-mul_of_pos_left,
}
use solana_dex_v.Prelude.{
  ℕ, zero, suc, ◌*◌, ◌/◌, ◌≤◌, ◌<◌, ◌≡◌, refl, ℤ, pos, ◌+ℤ◌, ◌-ℤ◌, sub_ℕ-le, Bool, true, false,
  Option, List, Result, ok, err, invalid_dev_fee_percentage, >>=-eq-ok, ◌>>=◌, arith,
}
use solana_dex_v.Sdk.{MathUtil, Percentage, SplToken, IsFloor}
use solana_dex_v.Types.{TickArrayData}
use solana_dex_v.Price.PriceMath.{BnBits}
use solana_dex_v.Tokens.TransferFees.{TokenExtensionContext}
use solana_dex_v.Positions.PositionUtil.Amounts.{percentage, div-pos}
use solana_dex_v.Swap.SwapQuote.{SwapQuote, SwapQuoteParam, simulate_swap}
use solana_dex_v.Swap.SlippageQuote.{
  SwapAmounts, calculate_swap_amounts_from_quote, swap_quote_with_params,
}
use solana_dex_v.Swap.TokenQuote.{Pool, swap_quote_by_token, swap_quote_by_input_token}
use solana_dex_v.Swap.DevFeeQuote.{
  DevFeeSwapQuote, add_dev_fee, swap_quote_by_input_token_with_dev_fees,
}

quotient-IsFloor : (n d : ℕ) → 0 < d → IsFloor (n / d) n d
quotient-IsFloor n d h = (div-mul-le_self n d, lt-div-mul-add {b = d} h)

-- A part of less than the whole.
part-lt : (q n a d : ℕ) → q * d ≤ n * a → a < d → 0 < n → q < n
part-lt q n a d h lt some_n =
    lt_of_mul-lt-mul_right d
      (omega (arith, mul-lt-mul_of_pos_left {m = a} {n = d} {k = n} lt some_n))

rest_and_fee : (n fee : ℕ) → fee ≤ n → (pos n -ℤ pos fee) +ℤ pos fee ≡ pos n
rest_and_fee n fee h = rw (sub_ℕ-le n fee h) (ap pos (omega arith))

amounts-amount :
    (amount est_in est_out : ℤ) (slippage : Percentage) (b : Bool) (a : SwapAmounts)
    → calculate_swap_amounts_from_quote amount est_in est_out slippage b ≡ ok a
    → a.amount ≡ amount
unfolding calculate_swap_amounts_from_quote
amounts-amount amount est_in est_out slippage true a h = ground arith
amounts-amount amount est_in est_out slippage false a h = ground arith

module _ {Key Mint : Type 0} (equals : Key → Key → Bool) (find_address : Key → ℤ → Key)
    (fetch : List Key → List (Option TickArrayData)) (ctx : TokenExtensionContext Mint) where
  by_token-amount :
      (pool : Pool Key) (mint : Key) (amount : ℤ) (is_input : Bool) (p : SwapQuoteParam Key Mint)
      → swap_quote_by_token equals find_address fetch ctx pool mint amount is_input ≡ ok p
      → p.token_amount ≡ amount
  unfolding swap_quote_by_token
  by_token-amount pool mint amount is_input p h = ground arith

  module _ {Config : Type 0} (math : MathUtil) (bits : BnBits) (spl : SplToken Mint Config)
      (fuel : ℕ) where
    with_params-amount :
        (p : SwapQuoteParam Key Mint) (slippage : Percentage) (q : SwapQuote Key × SwapAmounts)
        → swap_quote_with_params math bits spl fuel p slippage ≡ ok q
        → q.1.amount ≡ p.token_amount
    unfolding swap_quote_with_params
    with_params-amount p slippage q h =
        let (quote, e, r) = >>=-eq-ok (simulate_swap math bits spl fuel p) _ h in
        let (a, f, same) = >>=-eq-ok _ _ r in
        let fields : a ≡ q.1 = ground arith in
        sym (ap (λ (b : SwapAmounts). b.amount) fields) ∙ amounts-amount _ _ _ _ _ a f

    by_input_token-amount :
        (pool : Pool Key) (mint : Key) (amount : ℤ) (slippage : Percentage)
        (q : SwapQuote Key × SwapAmounts)
        → swap_quote_by_input_token equals find_address fetch ctx math bits spl fuel pool mint
            amount slippage
          ≡ ok q
        → q.1.amount ≡ amount
    unfolding swap_quote_by_input_token
    by_input_token-amount pool mint amount slippage q h =
        let (p, e, r) =
          >>=-eq-ok (swap_quote_by_token equals find_address fetch ctx pool mint amount true) _ h in
        with_params-amount p slippage q r ∙ by_token-amount pool mint amount true p e

    module _ (is_at_least_one : Percentage → Bool) where
      abbrev with_dev_fees :
          Pool Key → Key → ℤ → Percentage → Percentage → Result (DevFeeSwapQuote Key)
      with_dev_fees =
          swap_quote_by_input_token_with_dev_fees equals find_address fetch ctx math bits spl fuel
            is_at_least_one

      -- The whole amount is what is swapped and what the developer gets, next to the quote of the swap.
      abbrev pub Pays : Pool Key → Key → Percentage → ℕ → ℤ → DevFeeSwapQuote Key → Type 0
      Pays pool mint slippage n fee d =
          (r : SwapQuote Key × SwapAmounts) × (swap_quote_by_input_token equals find_address fetch
              ctx math bits spl fuel pool mint (pos n -ℤ fee) slippage
            ≡ ok r)
          × (d.dev_fee_amount ≡ fee)
          × (d.swap_amounts ≡ r.1)
          × (d.swap_amounts.amount +ℤ fee ≡ pos n)
          × (d.swap_quote.estimated_amount_in ≡ r.0.estimated_amount_in +ℤ fee)
          × (d.swap_quote.estimated_amount_out ≡ r.0.estimated_amount_out)
          × (d.estimated_swap_fee_amount ≡ r.0.estimated_fee_amount)
          × (d.swap_quote.estimated_fee_amount ≡ d.estimated_swap_fee_amount +ℤ fee)

      with_dev_fees-eq :
          (pool : Pool Key) (mint : Key) (n a d : ℕ) (slippage : Percentage)
          → 0 < d
          → is_at_least_one (percentage a d) ≡ false
          → with_dev_fees pool mint (pos n) slippage (percentage a d) ≡ (
              swap_quote_by_input_token equals find_address fetch ctx math bits spl fuel pool mint
                (pos n -ℤ pos (n * a / d))
                slippage
              >>= λ q. ok (add_dev_fee (pos (n * a / d)) q))
      unfolding swap_quote_by_input_token_with_dev_fees
      with_dev_fees-eq pool mint n a d slippage h less = rw (less, div-pos (n * a) d h) refl

      with_dev_fees-Pays :
          (pool : Pool Key) (mint : Key) (n fee : ℕ) (slippage : Percentage)
          (q : DevFeeSwapQuote Key)
          → fee ≤ n
          → (swap_quote_by_input_token equals find_address fetch ctx math bits spl fuel pool mint
                (pos n -ℤ pos fee)
                slippage
              >>= λ q. ok (add_dev_fee (pos fee) q))
            ≡ ok q
          → Pays pool mint slippage n (pos fee) q
      unfolding add_dev_fee
      with_dev_fees-Pays pool mint n fee slippage q le h =
          let (r, e, same) = >>=-eq-ok _ _ h in
          let amount = by_input_token-amount pool mint _ slippage r e in
          let fields : add_dev_fee (pos fee) r ≡ q = ground arith in
          rw (← fields)
            (r, e, refl, refl, rw amount (rest_and_fee n fee le), refl, refl, refl, refl)

      fee-le : (n a d : ℕ) → 0 < d → a < d → n * a / d ≤ n
      fee-le zero a d h lt = omega (arith, zero-div d)
      fee-le (suc n) a d h lt =
          let less = part-lt (suc n * a / d) (suc n) a d (div-mul-le_self (suc n * a) d) lt in
          omega (arith, less (omega arith))

      stopped :
          (pool : Pool Key) (mint : Key) (n a d : ℕ) (slippage : Percentage)
          → is_at_least_one (percentage a d) ≡ true
          → with_dev_fees pool mint (pos n) slippage (percentage a d)
            ≡ err invalid_dev_fee_percentage
      unfolding swap_quote_by_input_token_with_dev_fees
      stopped pool mint n a d slippage e = rw e refl

      -- Let the developer's part be `a / d` for a positive `d`, and let the comparison with one let
      -- only smaller fractions pass. If it stops the part, the call fails with its code. Otherwise the
      -- fee is the amount times the part, rounded down, and less than any positive amount; the call
      -- is the quote of a swap of the rest, with the fee added, and fails where that quote fails. A
      -- quote that is returned has this fee and the swap amounts of that quote, which swap
      -- exactly the rest of the amount; its input and its fees are those of the swap with the
      -- developer's fee added, and its output is that of the swap.
      pub with_dev_fees-cases :
          ((a d : ℕ) → 0 < d → is_at_least_one (percentage a d) ≡ false → a < d)
          → (pool : Pool Key) (mint : Key) (n a d : ℕ) (slippage : Percentage) → 0 < d
          → (is_at_least_one (percentage a d) ≡ true
              → swap_quote_by_input_token_with_dev_fees equals find_address fetch ctx math bits spl
                  fuel is_at_least_one pool mint
                  (pos n)
                  slippage
                  (percentage a d)
                ≡ err invalid_dev_fee_percentage)
            × (is_at_least_one (percentage a d) ≡ false
                → (fee : ℕ) × IsFloor fee (n * a) d
                  × (fee ≤ n)
                  × (0 < n → fee < n)
                  × (swap_quote_by_input_token_with_dev_fees equals find_address fetch ctx math bits
                        spl fuel is_at_least_one pool mint
                        (pos n)
                        slippage
                        (percentage a d)
                      ≡ (swap_quote_by_input_token equals find_address fetch ctx math bits spl fuel
                            pool mint
                            (pos n -ℤ pos fee)
                            slippage
                          >>= λ q. ok (add_dev_fee (pos fee) q)))
                  × ((q : DevFeeSwapQuote Key)
                      → swap_quote_by_input_token_with_dev_fees equals find_address fetch ctx math
                          bits spl fuel is_at_least_one pool mint
                          (pos n)
                          slippage
                          (percentage a d)
                        ≡ ok q
                      → Pays pool mint slippage n (pos fee) q))
      with_dev_fees-cases smaller pool mint n a d slippage h =
          (stopped pool mint n a d slippage, passed)
        where
          passed :
              is_at_least_one (percentage a d) ≡ false
              → (fee : ℕ) × IsFloor fee (n * a) d
                × (fee ≤ n)
                × (0 < n → fee < n)
                × (with_dev_fees pool mint (pos n) slippage (percentage a d) ≡ (
                    swap_quote_by_input_token equals find_address fetch ctx math bits spl fuel pool
                      mint
                      (pos n -ℤ pos fee)
                      slippage
                    >>= λ q. ok (add_dev_fee (pos fee) q)))
                × ((q : DevFeeSwapQuote Key)
                    → with_dev_fees pool mint (pos n) slippage (percentage a d) ≡ ok q
                    → Pays pool mint slippage n (pos fee) q)
          passed less =
              let lt = smaller a d h less in
              let same = with_dev_fees-eq pool mint n a d slippage h less in
              let le = fee-le n a d h lt in
              (
                n * a / d,
                quotient-IsFloor (n * a) d h,
                le,
                part-lt (n * a / d) n a d (div-mul-le_self (n * a) d) lt,
                same,
                λ q returned.
                    with_dev_fees-Pays pool mint n (n * a / d) slippage q le (sym same ∙ returned),
              )
