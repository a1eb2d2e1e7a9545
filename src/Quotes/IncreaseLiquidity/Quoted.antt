-- ===== src/Quotes/IncreaseLiquidity/Quoted.antt =====
-- A deposit of token A: the estimate of the quote, with its transfer fee, is at most the deposit.
use native.Mathlib.Nat.{zero-div, zero-mul}
use solana_dex_v.Prelude.{
  ap, ◌+◌, ◌*◌, ◌/◌, if◌then◌else◌, ℕ, ◌-◌, ◌^◌, ◌≤◌, ◌<◌, ◌≡◌, ◌⊎◌, inl, inr, refl, ℤ, pos, ◌≤ℤ◌,
  leb, Bool, true, false, Bool-cases, Result, ok, err, error, arith,
}
use solana_dex_v.Sdk.{MathUtil, SplToken, IsCeil}
use solana_dex_v.Price.PriceMath.{BnBits, tick_index_to_sqrt_price_x64}
use solana_dex_v.Price.PriceMath.Sides.{tick_index_to_sqrt_price_x64-side}
use solana_dex_v.Tokens.TransferFees.{TokenExtensionContext, amount_and_fee}
use solana_dex_v.Tokens.TransferFees.Mints.{
  IsRated, net, IsLeast, zero-IsLeast, Overflows, net-pos, include-IsLeast, fits_in_deposit,
}
use solana_dex_v.Positions.PositionUtil.{get_strict_position_status}
use solana_dex_v.Positions.PositionUtil.Amounts.{percentage}
use solana_dex_v.Quotes.IncreaseLiquidity.{
  IncreaseLiquidityQuoteParam, IncreaseLiquidityQuote, quote_of, no_amount, include_fees,
}
use solana_dex_v.Quotes.IncreaseLiquidity.InputToken.{
  quote_position_below_range, liquidity_in_range, quote_position_in_range, quote_position,
  check_param, increase_liquidity_quote_by_input_token_with_params,
}
use solana_dex_v.Quotes.IncreaseLiquidity.Deposits.{
  bought, slipped, adjust_for_slippage-slipped, le-slipped, get_token_a_from_liquidity-back,
  token_b_cost,
}

-- A deposit of n of a token at a price and under a slippage of s / d.
abbrev pub deposit :
    {Key Mint : Type 0}
    → ℕ
    → Key
    → Key
    → Key
    → TokenExtensionContext Mint
    → ℤ
    → ℕ
    → ℤ
    → ℤ
    → ℕ
    → ℕ
    → IncreaseLiquidityQuoteParam Key Mint
deposit n key key_a key_b ctx current price lower upper s d = record {
  input_token_amount = pos n;
  input_token_mint = key;
  token_mint_a = key_a;
  token_mint_b = key_b;
  token_extension_ctx = ctx;
  tick_current_index = current;
  sqrt_price = pos price;
  tick_lower_index = lower;
  tick_upper_index = upper;
  slippage_tolerance = percentage s d;
}

module _ {Mint Config : Type 0} (spl : SplToken Mint Config)
    (ctx : TokenExtensionContext Mint) where
  abbrev pub AreRated : Type 0
  AreRated =
      IsRated spl ctx.token_mint_a ctx.current_epoch
      × IsRated spl ctx.token_mint_b ctx.current_epoch

  -- The amount that leaves this much after the fee has no 64 bits.
  abbrev pub IsOver : Mint → ℕ → Type 0
  IsOver mint m =
      (total : ℕ) × IsLeast spl mint ctx.current_epoch m total
      × Overflows spl mint ctx.current_epoch m total

  abbrev pub LeastA : ℕ → ℤ → Type 0
  LeastA m amount =
      (total : ℕ) × (amount ≡ pos total) × IsLeast spl ctx.token_mint_a ctx.current_epoch m total

  abbrev pub LeastB : ℕ → ℤ → Type 0
  LeastB m amount =
      (total : ℕ) × (amount ≡ pos total) × IsLeast spl ctx.token_mint_b ctx.current_epoch m total

  -- The result for a deposit of n that buys the liquidity l, which costs e of token A and f of token
  -- B, and at most m and o. Each amount of the quote is the least that leaves the cost after its
  -- transfer fee. Only where such an amount has no 64 bits there is no quote.
  abbrev pub Quotes : ℕ → ℕ → ℕ → ℕ → ℕ → ℕ → Result IncreaseLiquidityQuote → Type 0
  Quotes n l e f m o result =
      ((q : IncreaseLiquidityQuote) × (result ≡ ok q)
        × (q.liquidity_amount ≡ pos l)
        × LeastA e q.token_est_a
        × LeastB f q.token_est_b
        × LeastA m q.token_max_a
        × LeastB o q.token_max_b
        × (q.token_est_a ≤ℤ pos n)
        × (q.token_est_a ≤ℤ q.token_max_a))
      ⊎ ((result ≡ err error)
          × (IsOver ctx.token_mint_a m ⊎ IsOver ctx.token_mint_b o ⊎ IsOver ctx.token_mint_b f))

  -- The price from which the deposit is quoted.
  abbrev pub from_price : ℕ → ℕ → ℕ
  from_price lo price = if leb price lo then lo else price

  -- What the liquidity costs of token B: nothing below the range.
  abbrev pub CostB : Bool → ℕ → ℕ → ℕ → ℕ → Type 0
  CostB true l lo price f = f ≡ 0
  CostB false l lo price f = (l * (price - lo) / 2 ^ 64 ≤ f) × (f ≤ l * (price - lo) / 2 ^ 64 + 1)

  -- What is left of the deposit after the fee buys the liquidity, rounded down; its costs are rounded
  -- up, that of token B to the next number at most; and the slippage is added to them.
  abbrev pub IsQuoted : ℕ → ℕ → ℕ → ℕ → ℕ → ℕ → Result IncreaseLiquidityQuote → Type 0
  IsQuoted n lo price hi s d result =
      (k : ℕ) × (e : ℕ) × (f : ℕ) × (net spl ctx.token_mint_a ctx.current_epoch n ≡ pos k)
      × IsCeil e (bought k (from_price lo price) hi * (hi - from_price lo price) * 2 ^ 64)
          (hi * from_price lo price)
      × CostB (leb price lo) (bought k (from_price lo price) hi) lo price f
      × Quotes n (bought k (from_price lo price) hi) e f (slipped e s d) (slipped f s d) result

  module _ (math : MathUtil) (bits : BnBits) where
    include_fees-Quotes :
        (n l k e m f o : ℕ)
        → AreRated
        → net spl ctx.token_mint_a ctx.current_epoch n ≡ pos k
        → e ≤ k
        → e ≤ m
        → n < 2 ^ 64
        → Quotes n l e f m o (include_fees math bits spl ctx (pos l) (pos m, pos o) (pos e, pos f))
    unfolding include_fees
    include_fees-Quotes n l k e m f o (rated_a, rated_b) left le more fits =
        let (g, h, of_e, of_m, est, g_le, h_ge, cases) =
          fits_in_deposit spl ctx.token_mint_a ctx.current_epoch rated_a n k e m left le more
            fits in
        let (x, of_o, max_b) = include-IsLeast spl ctx.token_mint_b ctx.current_epoch rated_b o in
        let (y, of_f, est_b) = include-IsLeast spl ctx.token_mint_b ctx.current_epoch rated_b f in
        elim cases [
          | inr (thrown, over) ↦ inr (rw thrown refl, inl (h, of_m, (thrown, over)))
          | inl max ↦ elim max_b [
            | inr (thrown, over) ↦
                inr (rw (max, est, thrown) refl, inr (inl (x, of_o, (thrown, over))))
            | inl max' ↦ elim est_b [
              | inr (thrown, over) ↦
                  inr (rw (max, est, max', thrown) refl, inr (inr (y, of_f, (thrown, over))))
              | inl est' ↦ inl (
                quote_of (pos l) (amount_and_fee (pos h) (pos (h - m)))
                    (amount_and_fee (pos g) (pos (g - e))) (amount_and_fee (pos x) (pos (x - o)))
                    (amount_and_fee (pos y) (pos (y - f))),
                rw (max, est, max', est') refl,
                refl,
                (g, refl, of_e),
                (y, refl, of_f),
                (h, refl, of_m),
                (x, refl, of_o),
                omega arith,
                omega arith,
              )
            ]
          ]
        ]

    module _ {Key : Type 0} (equals : Key → Key → Bool) (n : ℕ) (key key_a key_b : Key)
        (current lower upper : ℤ) (price s d : ℕ) where
      abbrev Request : IncreaseLiquidityQuoteParam Key Mint
      Request = deposit n key key_a key_b ctx current price lower upper s d

      module _ (lo hi : ℕ) (at_lower : tick_index_to_sqrt_price_x64 bits lower ≡ ok (pos lo))
          (at_upper : tick_index_to_sqrt_price_x64 bits upper ≡ ok (pos hi)) (rated : AreRated)
          (of_a : equals key_a key ≡ true) (fits : n < 2 ^ 64) (d_pos : 0 < d) where
        below_range-Quotes :
            (k : ℕ)
            → net spl ctx.token_mint_a ctx.current_epoch n ≡ pos k
            → lo < hi
            → 0 < lo
            → (e : ℕ) × IsCeil e (bought k lo hi * (hi - lo) * 2 ^ 64) (hi * lo)
              × Quotes n
                  (bought k lo hi)
                  e
                  0
                  (slipped e s d)
                  (slipped 0 s d)
                  (quote_position_below_range math bits spl equals Request)
        unfolding quote_position_below_range
        below_range-Quotes k left apart lo_pos =
            let (l, e, buys, cost, le, is_l, ceil) =
              get_token_a_from_liquidity-back math k lo hi apart lo_pos in
            let m = slipped e s d in
            let most = adjust_for_slippage-slipped e s d d_pos in
            let (g, h, of_e, of_m, est, g_le, h_ge, cases) =
              fits_in_deposit spl ctx.token_mint_a ctx.current_epoch rated.0 n k e m left le
                (le-slipped e s d d_pos) fits in
            let none_b = zero-IsLeast spl ctx.token_mint_b ctx.current_epoch rated.1 in
            let no_slip : slipped 0 s d ≡ 0 = rw (zero-mul (d + s)) (zero-div d) in
            (
              e,
              rw (← is_l) ceil,
              elim cases [
                | inl max ↦ inl (
                  quote_of (pos l) (amount_and_fee (pos h) (pos (h - m)))
                      (amount_and_fee (pos g) (pos (g - e))) no_amount no_amount,
                  rw (of_a, at_lower, at_upper, left, buys, cost, most, max, est) refl,
                  ap pos is_l,
                  (g, refl, of_e),
                  (0, refl, none_b),
                  (h, refl, of_m),
                  (0, refl, rw no_slip none_b),
                  omega arith,
                  omega arith,
                )
                | inr (thrown, over) ↦ inr (
                  rw (of_a, at_lower, at_upper, left, buys, cost, most, thrown) refl,
                  inl (h, of_m, (thrown, over)),
                )
              ],
            )

        in_range-Quotes :
            (k : ℕ)
            → net spl ctx.token_mint_a ctx.current_epoch n ≡ pos k
            → lo < price
            → price < hi
            → (e : ℕ) × (f : ℕ) × IsCeil e (bought k price hi * (hi - price) * 2 ^ 64) (hi * price)
              × CostB false (bought k price hi) lo price f
              × Quotes n
                  (bought k price hi)
                  e
                  f
                  (slipped e s d)
                  (slipped f s d)
                  (quote_position_in_range math bits spl equals Request)
        unfolding quote_position_in_range liquidity_in_range
        in_range-Quotes k left above below =
            let (l, e, buys, cost, le, is_l, ceil) =
              get_token_a_from_liquidity-back math k price hi below (omega arith) in
            let (f, other, least, greatest) = token_b_cost math l lo price above in
            let most = adjust_for_slippage-slipped e s d d_pos in
            let most' = adjust_for_slippage-slipped f s d d_pos in
            (
              e,
              f,
              rw (← is_l) ceil,
              rw (← is_l) (least, greatest),
              rw (← is_l, of_a, at_lower, at_upper, left, buys, cost, other, most, most')
                  (include_fees-Quotes n l k e (slipped e s d) f (slipped f s d) rated left le
                    (le-slipped e s d d_pos) fits),
            )

        quoted_below :
            check_param math bits spl equals Request ≡ ok tt
            → leb price lo ≡ true
            → increase_liquidity_quote_by_input_token_with_params math bits spl equals Request
              ≡ quote_position_below_range math bits spl equals Request
        unfolding increase_liquidity_quote_by_input_token_with_params get_strict_position_status
            quote_position
        quoted_below checked under = rw (checked, at_lower, at_upper, under) refl

        quoted_inside :
            check_param math bits spl equals Request ≡ ok tt
            → leb price lo ≡ false
            → leb hi price ≡ false
            → increase_liquidity_quote_by_input_token_with_params math bits spl equals Request
              ≡ quote_position_in_range math bits spl equals Request
        unfolding increase_liquidity_quote_by_input_token_with_params get_strict_position_status
            quote_position
        quoted_inside checked over inside = rw (checked, at_lower, at_upper, over, inside) refl

      -- Let the three checks of the parameters hold, the prices of the two ends ascend, the fee of
      -- each token be at most the whole amount, the slippage have a positive denominator and the
      -- price be below the upper end. Take a deposit of less than 2 ^ 64 of token A. What is left of
      -- it after its fee buys the liquidity, rounded down, from the price, or from the lower end if the
      -- price is not above it. Its cost is rounded up, and of token B it is nothing below the range,
      -- and else the exact cost, rounded down or one more. Each amount of the quote is the least that
      -- leaves such a cost, or the cost with the slippage, after its transfer fee; the estimate of
      -- token A is at most the deposit and at most the maximum. The quote fails only where one of
      -- the amounts for the two maximums and the estimate of token B is above 64 bits.
      pub increase_liquidity_quote-IsQuoted :
          (lo hi : ℕ)
          → tick_index_to_sqrt_price_x64 bits lower ≡ ok (pos lo)
          → tick_index_to_sqrt_price_x64 bits upper ≡ ok (pos hi)
          → lo < hi
          → price < hi
          → check_param math bits spl equals Request ≡ ok tt
          → equals key_a key ≡ true
          → AreRated
          → n < 2 ^ 64
          → 0 < d
          → IsQuoted n lo price hi s d
              (increase_liquidity_quote_by_input_token_with_params math bits spl equals Request)
      increase_liquidity_quote-IsQuoted lo hi at_lower at_upper apart below checked of_a rated fits
            d_pos =
          let (k, left, _) = net-pos spl ctx.token_mint_a ctx.current_epoch rated.0 n in
          elim (Bool-cases (leb price lo)) [
            | inl under ↦
                let (e, ceil, quotes) =
                  below_range-Quotes lo hi at_lower at_upper rated of_a fits d_pos k left apart
                    (price_pos lower lo at_lower) in
                rw (quoted_below lo hi at_lower at_upper rated of_a fits d_pos checked under, under)
                  (k, e, 0, left, ceil, refl, quotes)
            | inr over ↦
                let inside : leb hi price ≡ false = ground arith in
                let (e, f, ceil, cost, quotes) =
                  in_range-Quotes lo hi at_lower at_upper rated of_a fits d_pos k left
                    (ground arith) below in
                rw
                  (
                    quoted_inside lo hi at_lower at_upper rated of_a fits d_pos checked over inside,
                    over,
                  )
                  (k, e, f, left, ceil, cost, quotes)
          ]
        where
          price_pos :
              (tick : ℤ) (p : ℕ) → tick_index_to_sqrt_price_x64 bits tick ≡ ok (pos p) → 0 < p
          price_pos tick p e =
              let (q, e', q_pos, _, _) = tick_index_to_sqrt_price_x64-side bits tick in
              let same : q ≡ p = cc in omega arith
