-- ===== src/Quotes/DecreaseLiquidity/Minimums.antt =====
-- A withdrawal can always be quoted, and its minimums are at most its estimates.
use native.Mathlib.Nat.{mul-pos}
use native.Mathlib.Decide.{dec_lt}
use solana_dex_v.Prelude.{
  ℕ, ◌-◌, ◌*◌, ◌/◌, ◌^◌, ◌≤◌, ◌<◌, ◌≡◌, refl, ℤ, pos, sub_ℕ-le, ◌+ℤ◌, ◌≤ℤ◌, true, false, ok, arith,
  leb_ℤ, ◌==◌, if◌then◌else◌,
}
use solana_dex_v.Sdk.{MathUtil, SplToken}
use solana_dex_v.Price.PriceMath.{BnBits}
use solana_dex_v.Price.PriceMath.Sides.{tick_index_to_sqrt_price_x64-side}
use solana_dex_v.Ticks.TickUtil.{check_tick_in_bounds}
use solana_dex_v.Positions.PositionUtil.{
  PositionStatus, below_range, in_range, above_range, get_strict_position_status, order_sqrt_price,
  get_token_a_from_liquidity, get_token_b_from_liquidity,
}
use solana_dex_v.Tokens.TransferFees.{TokenExtensionContext}
use solana_dex_v.Positions.PositionUtil.Amounts.{percentage, adjust_for_slippage-bounds, div-pos}
use solana_dex_v.Quotes.CollectFees.Owed.{excluded_parts}
use solana_dex_v.Quotes.DecreaseLiquidity.{
  DecreaseLiquidityQuoteParam, DecreaseLiquidityQuote, token_estimates,
  get_token_estimates_from_liquidity, exclude_fees, quote_positive,
  decrease_liquidity_quote_by_liquidity_with_params,
}

-- The amount before the transfer fee: what arrives and what is taken.
abbrev pub min_a : DecreaseLiquidityQuote → ℤ
min_a q = q.token_min_a +ℤ q.deducted_from_token_min_a

abbrev pub min_b : DecreaseLiquidityQuote → ℤ
min_b q = q.token_min_b +ℤ q.deducted_from_token_min_b

abbrev pub est_a : DecreaseLiquidityQuote → ℤ
est_a q = q.token_est_a +ℤ q.deducted_from_token_est_a

abbrev pub est_b : DecreaseLiquidityQuote → ℤ
est_b q = q.token_est_b +ℤ q.deducted_from_token_est_b

-- A request to withdraw l of liquidity at a price and under a slippage of s / d.
abbrev pub withdrawal :
    {Mint : Type 0}
    → ℕ
    → ℕ
    → ℤ
    → ℤ
    → ℤ
    → TokenExtensionContext Mint
    → ℕ
    → ℕ
    → DecreaseLiquidityQuoteParam Mint
withdrawal l price lower upper current ctx s d = record {
  liquidity = pos l;
  tick_current_index = current;
  sqrt_price = pos price;
  tick_lower_index = lower;
  tick_upper_index = upper;
  token_extension_ctx = ctx;
  slippage_tolerance = percentage s d;
}

-- The two prices in order.
order-cases :
    (a b : ℕ)
    → 0 < a
    → 0 < b
    → (lo hi : ℕ) × (order_sqrt_price (pos a) (pos b) ≡ (pos lo, pos hi)) × (lo ≤ hi) × (0 < lo)
unfolding order_sqrt_price
order-cases a b ha hb = elim (dec_lt a b) [
  | yes lt ↦ (a, b, ground arith, omega arith, ha)
  | no ge ↦ (b, a, ground arith, omega arith, hb)
]

module _ (math : MathUtil) where
  token_a-total :
      (l a b : ℕ)
      → 0 < a
      → 0 < b
      → (t : ℕ) × (get_token_a_from_liquidity math (pos l) (pos a) (pos b) false ≡ ok (pos t))
  unfolding get_token_a_from_liquidity
  token_a-total l a b ha hb =
      let (lo, hi, e, le, p) = order-cases a b ha hb in
      (
        l * (hi - lo) * 2 ^ 64 / (hi * lo),
        rw
            (
              e,
              sub_ℕ-le hi lo le,
              div-pos (l * (hi - lo) * 2 ^ 64) (hi * lo) (mul-pos (omega arith) p),
            )
            refl,
      )

  token_b-total :
      (l a b : ℕ)
      → 0 < a
      → 0 < b
      → (t : ℕ) × (get_token_b_from_liquidity math (pos l) (pos a) (pos b) false ≡ ok (pos t))
  unfolding get_token_b_from_liquidity
  token_b-total l a b ha hb =
      let (lo, hi, e, le, p) = order-cases a b ha hb in
      (l * (hi - lo) / 2 ^ 64, rw (e, sub_ℕ-le hi lo le) refl)

  token_estimates-total :
      (bits : BnBits) (status : PositionStatus) (l lower upper price : ℕ)
      → 0 < lower
      → 0 < upper
      → 0 < price
      → (a b : ℕ) × (token_estimates math bits status (pos l) (pos lower) (pos upper) (pos price)
          ≡ ok (pos a, pos b))
  unfolding token_estimates
  token_estimates-total bits below_range l lower upper price hl hu hp =
      let (a, ea) = token_a-total l lower upper hl hu in (a, 0, rw ea refl)
  token_estimates-total bits in_range l lower upper price hl hu hp =
      let (a, ea) = token_a-total l price upper hp hu in
      let (b, eb) = token_b-total l lower price hl hp in (a, b, rw (ea, eb) refl)
  token_estimates-total bits above_range l lower upper price hl hu hp =
      let (b, eb) = token_b-total l lower upper hl hu in (0, b, rw eb refl)

module _ (math : MathUtil) (bits : BnBits) where
  get_token_estimates-total :
      (l price : ℕ) (lower upper : ℤ)
      → 0 < l
      → 0 < price
      → (a b : ℕ) × (get_token_estimates_from_liquidity math bits (pos l) lower upper (pos price)
          ≡ ok (pos a, pos b))
  unfolding get_token_estimates_from_liquidity get_strict_position_status
  get_token_estimates-total l price lower upper l_pos price_pos =
      let (p, ep, p_pos, lp, sp) = tick_index_to_sqrt_price_x64-side bits lower in
      let (q, eq, q_pos, lq, sq) = tick_index_to_sqrt_price_x64-side bits upper in
      let status =
        if leb_ℤ (pos price) (pos p)
        then below_range
        else if leb_ℤ (pos q) (pos price)
        then above_range
        else in_range in
      let (a, b, e) = token_estimates-total math bits status l p q price p_pos q_pos price_pos in
      let some_liquidity : (l == 0) ≡ false = ground arith in (a, b, rw (some_liquidity, ep, eq) e)

  module _ {Mint Config : Type 0} (spl : SplToken Mint Config) where
    exclude_fees-parts :
        (params : DecreaseLiquidityQuoteParam Mint) (a b m n : ℤ)
        → let q = exclude_fees math bits spl params (a, b) m n in
          (min_a q ≡ m) × (min_b q ≡ n) × (est_a q ≡ a) × (est_b q ≡ b)
    unfolding exclude_fees
    exclude_fees-parts params a b m n = (
      excluded_parts spl m params.token_extension_ctx.token_mint_a
          params.token_extension_ctx.current_epoch,
      excluded_parts spl n params.token_extension_ctx.token_mint_b
          params.token_extension_ctx.current_epoch,
      excluded_parts spl a params.token_extension_ctx.token_mint_a
          params.token_extension_ctx.current_epoch,
      excluded_parts spl b params.token_extension_ctx.token_mint_b
          params.token_extension_ctx.current_epoch,
    )

    -- A withdrawal of some liquidity, at a positive price and with a slippage whose denominator is
    -- positive, is quoted when its three ticks are in bounds. The estimates, with the transfer fees taken off
    -- them, are the amounts computed for the liquidity; the minimums, with the fees taken off them, are at most those.
    pub decrease_liquidity_quote_pays :
        (l price : ℕ) (lower upper current : ℤ) (ctx : TokenExtensionContext Mint) (s d : ℕ)
        → 0 < l
        → 0 < price
        → 0 < d
        → check_tick_in_bounds lower ≡ true
        → check_tick_in_bounds upper ≡ true
        → check_tick_in_bounds current ≡ true
        → (q : DecreaseLiquidityQuote) × (decrease_liquidity_quote_by_liquidity_with_params math
              bits spl
              (withdrawal l price lower upper current ctx s d)
            ≡ ok q)
          × (get_token_estimates_from_liquidity math bits (pos l) lower upper (pos price)
              ≡ ok (est_a q, est_b q))
          × (min_a q ≤ℤ est_a q)
          × (min_b q ≤ℤ est_b q)
    unfolding decrease_liquidity_quote_by_liquidity_with_params quote_positive
    decrease_liquidity_quote_pays l price lower upper current ctx s d l_pos price_pos d_pos in_l
          in_u in_c =
        let (a, b, e) = get_token_estimates-total l price lower upper l_pos price_pos in
        let (_, m, _, em, _, m_le, _, _) = adjust_for_slippage-bounds a s d d_pos in
        let (_, n, _, en, _, n_le, _, _) = adjust_for_slippage-bounds b s d d_pos in
        let params = withdrawal l price lower upper current ctx s d in
        let (ma, mb, ea, eb) = exclude_fees-parts params (pos a) (pos b) (pos m) (pos n) in
        let some_liquidity : (l == 0) ≡ false = ground arith in
        (
          exclude_fees math bits spl params (pos a, pos b) (pos m) (pos n),
          rw (in_l, in_u, in_c, some_liquidity, e, em, en) refl,
          rw (ea, eb) e,
          rw (ma, ea) (omega arith),
          rw (mb, eb) (omega arith),
        )
