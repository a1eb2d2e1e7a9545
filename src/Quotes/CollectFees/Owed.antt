-- ===== src/Quotes/CollectFees/Owed.antt =====
-- The fees that a position is owed: what the quote pays out and what a transfer takes.
use solana_dex_v.Prelude.{
  Option-cases, ltb_ℤ, true, false, if◌then◌else◌, ℕ, ◌+◌, ◌-◌, ◌*◌, ◌/◌, ◌%◌, ◌^◌, ◌<◌, ◌≡◌, refl,
  ℤ, pos, ◌+ℤ◌, ◌-ℤ◌, +ℤ_parts, -ℤ_parts, eq_of_parts, inl, inr, ok, arith,
}
use solana_dex_v.Sdk.{MathUtil, SplToken}
use solana_dex_v.Types.{TickData, PoolData, PositionData}
use solana_dex_v.Tokens.TransferFees.{
  amount_and_fee, TokenExtensionContext, exclude_fee, calculate_transfer_fee_excluded_amount,
}
use solana_dex_v.Quotes.CollectFees.{
  CollectFeesQuote, fee_growth_inside, fee_owed_delta, collect_fees_quote,
}
use solana_dex_v.Quotes.CollectFees.Growth.{side, fee_growth_inside-Splits, sub_exact}

-- A number of 128 bits, as the accounts hold them.
abbrev pub IsU128 : ℤ → Type 0
IsU128 x = (n : ℕ) × (x ≡ pos n) × (n < 2 ^ 128)

restored : (a f : ℤ) → a -ℤ f +ℤ f ≡ a
restored a f = eq_of_parts (a -ℤ f +ℤ f) a (omega (arith, -ℤ_parts a f, +ℤ_parts (a -ℤ f) f))

add_zero : (a : ℤ) → a +ℤ pos 0 ≡ a
add_zero a = ground arith

module _ {Mint Config : Type 0} (spl : SplToken Mint Config) where
  -- What is left after a transfer and the fee of it make the amount again, for every mint.
  pub excluded_parts :
      (amount : ℤ) (mint : Mint) (epoch : ℕ)
      → let r = calculate_transfer_fee_excluded_amount spl amount mint epoch in
        r.amount +ℤ r.fee ≡ amount
  unfolding calculate_transfer_fee_excluded_amount exclude_fee
  excluded_parts amount mint epoch = elim (Option-cases (spl.get_transfer_fee_config mint)) [
    | inl e ↦
        let same : calculate_transfer_fee_excluded_amount spl amount mint epoch
            ≡ amount_and_fee amount (pos 0) =
          rw (e, calculate_transfer_fee_excluded_amount) refl in
        rw same (add_zero amount)
    | inr (config, e) ↦
        let same : calculate_transfer_fee_excluded_amount spl amount mint epoch
            ≡ exclude_fee spl (spl.get_epoch_fee config epoch) amount =
          rw (e, calculate_transfer_fee_excluded_amount) refl in
        rw same (restored amount (spl.calculate_fee (spl.get_epoch_fee config epoch) amount))
  ]

-- The growth inside a position: with the growths below and above it, it makes the global growth.
abbrev pub IsInside : ℤ → ℤ → ℤ → ℕ → ℕ → ℕ → ℕ → Type 0
IsInside current lower_index upper_index global lower upper inside =
    (inside < 2 ^ 128)
    × ((inside
            + side (if ltb_ℤ current lower_index then false else true) global lower
            + side (ltb_ℤ current upper_index) global upper)
          % 2 ^ 128
        ≡ global)

-- What the growth since a checkpoint, modulo 2 ^ 128, adds for a liquidity: Q64.64, rounded down.
abbrev pub added : ℕ → ℕ → ℕ → ℕ
added inside checkpoint liquidity = (inside + 2 ^ 128 - checkpoint) % 2 ^ 128 * liquidity / 2 ^ 64

module _ (math : MathUtil) where
  fee_growth_inside-IsInside :
      (current lower_index upper_index global lower upper : ℤ) (g : IsU128 global)
      (l : IsU128 lower) (u : IsU128 upper)
      → (i : ℕ) × (fee_growth_inside math current lower_index upper_index global lower upper
          ≡ pos i)
        × IsInside current lower_index upper_index g.0 l.0 u.0 i
  fee_growth_inside-IsInside current lower_index upper_index global lower upper (g, eg, hg)
        (l, el, hl) (u, eu, hu) =
      let (i, e, lt, splits) =
        fee_growth_inside-Splits math current lower_index upper_index g l u hg hl hu in
      rw (eg, el, eu) (i, e, (lt, splits))

  fee_owed_delta-total :
      (i : ℕ) (checkpoint liquidity : ℤ) (hi : i < 2 ^ 128) (c : IsU128 checkpoint)
      (l : IsU128 liquidity)
      → fee_owed_delta math (pos i) checkpoint liquidity ≡ ok (pos (added i c.0 l.0))
  unfolding fee_owed_delta
  fee_owed_delta-total i checkpoint liquidity hi (c, ec, hc) (l, el, hl) =
      rw (ec, el, sub_exact math i c hi hc) refl

  -- For accounts whose growths, checkpoints and liquidity have 128 bits, the quote is always given.
  -- For each token there is a growth inside the position that makes the global growth together with
  -- the growths below and above it. What the quote pays and what the transfer takes are together what
  -- the position was owed and what this growth adds: its difference from the checkpoint, modulo
  -- 2 ^ 128, times the liquidity, without the 64 bits of the fraction.
  pub collect_fees_quote_pays :
      {Key Mint Config : Type 0} (spl : SplToken Mint Config) (pool : PoolData Key)
      (position : PositionData) (lower upper : TickData) (ctx : TokenExtensionContext Mint)
      (ga : IsU128 pool.fee_growth_global_a) (gb : IsU128 pool.fee_growth_global_b)
      (la : IsU128 lower.fee_growth_outside_a) (lb : IsU128 lower.fee_growth_outside_b)
      (ua : IsU128 upper.fee_growth_outside_a) (ub : IsU128 upper.fee_growth_outside_b)
      (ca : IsU128 position.fee_growth_checkpoint_a) (cb : IsU128 position.fee_growth_checkpoint_b)
      (l : IsU128 position.liquidity)
      → (q : CollectFeesQuote) × (a : ℕ) × (b : ℕ) × (collect_fees_quote math spl pool position
            lower upper ctx
          ≡ ok q)
        × IsInside pool.tick_current_index position.tick_lower_index position.tick_upper_index ga.0
            la.0 ua.0 a
        × IsInside pool.tick_current_index position.tick_lower_index position.tick_upper_index gb.0
            lb.0 ub.0 b
        × (q.fee_owed_a +ℤ q.deducted_from_fee_owed_a
            ≡ position.fee_owed_a +ℤ pos (added a ca.0 l.0))
        × (q.fee_owed_b +ℤ q.deducted_from_fee_owed_b
            ≡ position.fee_owed_b +ℤ pos (added b cb.0 l.0))
  unfolding collect_fees_quote
  collect_fees_quote_pays spl pool position lower upper ctx ga gb la lb ua ub ca cb l =
      let (a, ea, inside_a) =
        fee_growth_inside-IsInside pool.tick_current_index position.tick_lower_index
          position.tick_upper_index pool.fee_growth_global_a lower.fee_growth_outside_a
          upper.fee_growth_outside_a ga la ua in
      let (b, eb, inside_b) =
        fee_growth_inside-IsInside pool.tick_current_index position.tick_lower_index
          position.tick_upper_index pool.fee_growth_global_b lower.fee_growth_outside_b
          upper.fee_growth_outside_b gb lb ub in
      let da =
        fee_owed_delta-total a position.fee_growth_checkpoint_a position.liquidity inside_a.0 ca
          l in
      let db =
        fee_owed_delta-total b position.fee_growth_checkpoint_b position.liquidity inside_b.0 cb
          l in
      let paid_a =
        calculate_transfer_fee_excluded_amount spl (position.fee_owed_a +ℤ pos (added a ca.0 l.0))
          ctx.token_mint_a ctx.current_epoch in
      let paid_b =
        calculate_transfer_fee_excluded_amount spl (position.fee_owed_b +ℤ pos (added b cb.0 l.0))
          ctx.token_mint_b ctx.current_epoch in
      (
        record {
          fee_owed_a = paid_a.amount;
          fee_owed_b = paid_b.amount;
          deducted_from_fee_owed_a = paid_a.fee;
          deducted_from_fee_owed_b = paid_b.fee;
        },
        a,
        b,
        rw (ea, eb, da, db) refl,
        inside_a,
        inside_b,
        excluded_parts spl _ ctx.token_mint_a ctx.current_epoch,
        excluded_parts spl _ ctx.token_mint_b ctx.current_epoch,
      )
