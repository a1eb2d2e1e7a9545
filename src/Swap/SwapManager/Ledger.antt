-- ===== src/Swap/SwapManager/Ledger.antt =====
-- The books of a swap: what its amounts and fees are, over all iterations of the loop.
use solana_dex_v.Prelude.{
  ℕ, zero, suc, ◌≡◌, refl, sym, ap, ◌∙◌, ℤ, pos, ◌+ℤ◌, ◌-ℤ◌, eq_of_parts, pos_part, neg_part,
  +ℤ_parts, -ℤ_parts, Bool, true, false, beq, inl, inr, List, [], ◌∷◌, ok, arith, >>=-eq-ok,
  Bool-cases, if◌then◌else◌,
}
use solana_dex_v.Sdk.{MathUtil}
use solana_dex_v.Types.{PoolData}
use solana_dex_v.Math.SwapMath.{SwapStep}
use solana_dex_v.Price.PriceMath.{BnBits}
use solana_dex_v.Ticks.TickArraySequence.{TickArraySequence}
use solana_dex_v.Swap.SwapManager.{
  SwapState, SwapResult, swap_iteration, is_running, swap_loop, compute_swap, next_remaining,
  next_calculated, initial_state, calculate_est_tokens,
}

ok-injective : {A : Type 0} {a b : A} → ok a ≡ ok b → a ≡ b
ok-injective h = cc

sub_sub : (a x t : ℤ) → a -ℤ x -ℤ t ≡ a -ℤ (x +ℤ t)
sub_sub a x t =
    eq_of_parts (a -ℤ x -ℤ t) (a -ℤ (x +ℤ t))
      (omega (arith, -ℤ_parts a x, -ℤ_parts (a -ℤ x) t, +ℤ_parts x t, -ℤ_parts a (x +ℤ t)))

add_add : (a x t : ℤ) → a +ℤ x +ℤ t ≡ a +ℤ (x +ℤ t)
add_add a x t =
    eq_of_parts (a +ℤ x +ℤ t) (a +ℤ (x +ℤ t))
      (omega (arith, +ℤ_parts a x, +ℤ_parts (a +ℤ x) t, +ℤ_parts x t, +ℤ_parts a (x +ℤ t)))

sub_zero : (a : ℤ) → a -ℤ pos 0 ≡ a
sub_zero a = ground arith

add_zero : (a : ℤ) → a +ℤ pos 0 ≡ a
add_zero a = ground arith

zero_add : (a : ℤ) → pos 0 +ℤ a ≡ a
zero_add a = ground arith

sub_cancel : (a r x : ℤ) → r ≡ a -ℤ x → a -ℤ r ≡ x
sub_cancel a r x e =
    eq_of_parts (a -ℤ r) x (omega (arith, ap pos_part e, ap neg_part e, -ℤ_parts a x, -ℤ_parts a r))

-- Sums over the steps of a swap.
abbrev pub sum_of : (SwapStep → ℤ) → List SwapStep → ℤ
sum_of f [] = pos 0
sum_of f (s ∷ steps) = f s +ℤ sum_of f steps

abbrev pub total_in : List SwapStep → ℤ
total_in = sum_of (λ s. s.amount_in +ℤ s.fee_amount)

abbrev pub total_out : List SwapStep → ℤ
total_out = sum_of (λ s. s.amount_out)

abbrev pub total_fee : List SwapStep → ℤ
total_fee = sum_of (λ s. s.fee_amount)

-- The amount that is specified, and the other.
abbrev pub fixed_total : Bool → List SwapStep → ℤ
fixed_total is_input steps = if is_input then total_in steps else total_out steps

abbrev pub other_total : Bool → List SwapStep → ℤ
other_total is_input steps = if is_input then total_out steps else total_in steps

remaining_on :
    (b : Bool) (a : ℤ) (x : SwapStep) (steps : List SwapStep)
    → next_remaining b a x -ℤ fixed_total b steps ≡ a -ℤ fixed_total b (x ∷ steps)
unfolding next_remaining
remaining_on true a x steps =
    ap (λ (y : ℤ). y -ℤ total_in steps) (sub_sub a x.amount_in x.fee_amount)
    ∙ sub_sub a (x.amount_in +ℤ x.fee_amount) (total_in steps)
remaining_on false a x steps = sub_sub a x.amount_out (total_out steps)

calculated_on :
    (b : Bool) (a : ℤ) (x : SwapStep) (steps : List SwapStep)
    → next_calculated b a x +ℤ other_total b steps ≡ a +ℤ other_total b (x ∷ steps)
unfolding next_calculated
calculated_on true a x steps = add_add a x.amount_out (total_out steps)
calculated_on false a x steps =
    ap (λ (y : ℤ). y +ℤ total_in steps) (add_add a x.amount_in x.fee_amount)
    ∙ add_add a (x.amount_in +ℤ x.fee_amount) (total_in steps)

total_zero : (b : Bool) → (fixed_total b [] ≡ pos 0) × (other_total b [] ≡ pos 0)
total_zero true = (refl, refl)
total_zero false = (refl, refl)

est-cases :
    (amount r c : ℤ) (a_to_b is_input : Bool)
    → let est = calculate_est_tokens amount r c a_to_b is_input in
      ((if beq a_to_b is_input then est.0 else est.1) ≡ amount -ℤ r)
      × ((if beq a_to_b is_input then est.1 else est.0) ≡ c)
unfolding calculate_est_tokens
est-cases amount r c true true = (refl, refl)
est-cases amount r c true false = (refl, refl)
est-cases amount r c false true = (refl, refl)
est-cases amount r c false false = (refl, refl)

module _ (math : MathUtil) (bits : BnBits) {Key : Type 0} (whirlpool_data : PoolData Key)
    (sqrt_price_limit : ℤ) (is_input a_to_b : Bool) where
  -- The steps that the loop took from one state to another.
  pub data Steps : SwapState Key → List SwapStep → SwapState Key → Type 0 where
    done : (s : SwapState Key) → is_running sqrt_price_limit s ≡ false → Steps s [] s
    next :
        (s : SwapState Key) (step : SwapStep) (t : SwapState Key) (steps : List SwapStep)
        (u : SwapState Key)
        → is_running sqrt_price_limit s ≡ true
        → swap_iteration math bits whirlpool_data sqrt_price_limit is_input a_to_b s ≡ ok (step, t)
        → Steps t steps u
        → Steps s (step ∷ steps) u

  swap_loop-Steps :
      (fuel : ℕ) (s u : SwapState Key)
      → swap_loop math bits fuel whirlpool_data sqrt_price_limit is_input a_to_b s ≡ ok u
      → (steps : List SwapStep) × Steps s steps u
  unfolding swap_loop
  swap_loop-Steps zero s u h = cc
  swap_loop-Steps (suc fuel) s u h = elim (Bool-cases (is_running sqrt_price_limit s)) [
    | inl running ↦
        let (r, e, rest) =
          >>=-eq-ok (swap_iteration math bits whirlpool_data sqrt_price_limit is_input a_to_b s)
            (λ r. swap_loop math bits fuel whirlpool_data sqrt_price_limit is_input a_to_b r.1)
            (rw (running, swap_loop) at h) in
        let (steps, path) = swap_loop-Steps fuel r.1 u rest in
        (r.0 ∷ steps, next s r.0 r.1 steps u running e path)
    | inr stopped ↦
        let same : s ≡ u = ok-injective (rw (stopped, swap_loop) at h) in
        ([], rw (sym same) (done s stopped))
  ]

  abbrev pub Books : SwapState Key → List SwapStep → SwapState Key → Type 0
  Books s steps u =
      (u.amount_remaining ≡ s.amount_remaining -ℤ fixed_total is_input steps)
      × (u.amount_calculated ≡ s.amount_calculated +ℤ other_total is_input steps)
      × (u.total_fee_amount ≡ s.total_fee_amount +ℤ total_fee steps)

  Steps-stopped :
      {s u : SwapState Key} {steps : List SwapStep}
      → Steps s steps u
      → is_running sqrt_price_limit u ≡ false
  Steps-stopped (done s h) = h
  Steps-stopped (next s step t steps u running e path) = Steps-stopped path

  iteration-next :
      (s t : SwapState Key) (step : SwapStep)
      → swap_iteration math bits whirlpool_data sqrt_price_limit is_input a_to_b s ≡ ok (step, t)
      → (t.amount_remaining ≡ next_remaining is_input s.amount_remaining step)
        × (t.amount_calculated ≡ next_calculated is_input s.amount_calculated step)
        × (t.total_fee_amount ≡ s.total_fee_amount +ℤ step.fee_amount)
        × (t.curr_sqrt_price ≡ step.next_price)
  unfolding swap_iteration
  iteration-next s t step h = ground arith

  Steps-Books : {s u : SwapState Key} {steps : List SwapStep} → Steps s steps u → Books s steps u
  Steps-Books (done s h) = (
    sym (
        ap (λ (x : ℤ). s.amount_remaining -ℤ x) (total_zero is_input).0
        ∙ sub_zero s.amount_remaining),
    sym (
        ap (λ (x : ℤ). s.amount_calculated +ℤ x) (total_zero is_input).1
        ∙ add_zero s.amount_calculated),
    sym (add_zero s.total_fee_amount),
  )
  Steps-Books (next s step t steps u running e path) =
      let (r, c, f, p) = iteration-next s t step e in
      let (r', c', f') = Steps-Books path in
      (
        r'
            ∙ ap (λ (x : ℤ). x -ℤ fixed_total is_input steps) r
            ∙ remaining_on is_input s.amount_remaining step steps,
        c'
            ∙ ap (λ (x : ℤ). x +ℤ other_total is_input steps) c
            ∙ calculated_on is_input s.amount_calculated step steps,
        f'
            ∙ ap (λ (x : ℤ). x +ℤ total_fee steps) f
            ∙ add_add s.total_fee_amount step.fee_amount (total_fee steps),
      )

  result-amounts :
      (fuel : ℕ) (sequence sequence' : TickArraySequence Key) (amount : ℤ) (result : SwapResult)
      → compute_swap math bits fuel whirlpool_data sequence amount sqrt_price_limit is_input a_to_b
        ≡ ok (result, sequence')
      → (u : SwapState Key) × (swap_loop math bits fuel whirlpool_data sqrt_price_limit is_input
            a_to_b
            (initial_state whirlpool_data sequence amount a_to_b)
          ≡ ok u)
        × ((if beq a_to_b is_input then result.amount_a else result.amount_b)
            ≡ amount -ℤ u.amount_remaining)
        × ((if beq a_to_b is_input then result.amount_b else result.amount_a) ≡ u.amount_calculated)
        × (result.total_fee_amount ≡ u.total_fee_amount)
        × (result.next_sqrt_price ≡ u.curr_sqrt_price)
  unfolding compute_swap
  result-amounts fuel sequence sequence' amount result h =
      let (u, e, final) =
        >>=-eq-ok
          (swap_loop math bits fuel whirlpool_data sqrt_price_limit is_input a_to_b
            (initial_state whirlpool_data sequence amount a_to_b))
          _ h in
      let same = ok-injective final in
      let a = ap (λ (p : SwapResult × TickArraySequence Key). p.0.amount_a) (sym same) in
      let b = ap (λ (p : SwapResult × TickArraySequence Key). p.0.amount_b) (sym same) in
      let (fixed, other) =
        est-cases amount u.amount_remaining u.amount_calculated a_to_b is_input in
      (
        u,
        e,
        rw (a, b) fixed,
        rw (a, b) other,
        ap (λ (p : SwapResult × TickArraySequence Key). p.0.total_fee_amount) (sym same),
        ap (λ (p : SwapResult × TickArraySequence Key). p.0.next_sqrt_price) (sym same),
      )

  -- The loop went from its initial state through `steps` to a state where it stops, and `result` is
  -- their totals.
  abbrev pub IsBooked : TickArraySequence Key → ℤ → SwapResult → Type 0
  IsBooked sequence amount result =
      (steps : List SwapStep) × (u : SwapState Key) × Steps
        (initial_state whirlpool_data sequence amount a_to_b) steps u
      × (is_running sqrt_price_limit u ≡ false)
      × ((if beq a_to_b is_input then result.amount_a else result.amount_b)
          ≡ fixed_total is_input steps)
      × ((if beq a_to_b is_input then result.amount_b else result.amount_a)
          ≡ other_total is_input steps)
      × (result.total_fee_amount ≡ total_fee steps)
      × (result.next_sqrt_price ≡ u.curr_sqrt_price)

  -- A quoted swap is a sequence of steps of the loop that ends where the amount is used up or the
  -- price is the limit. On the specified side the quote's amount is the sum over the steps of what
  -- they take in, fee included (or of what they give out), on the other side it is the sum of the
  -- opposite amounts, and its fee is the sum of the steps' fees.
  pub compute_swap-Books :
      (fuel : ℕ) (sequence sequence' : TickArraySequence Key) (amount : ℤ) (result : SwapResult)
      → compute_swap math bits fuel whirlpool_data sequence amount sqrt_price_limit is_input a_to_b
        ≡ ok (result, sequence')
      → IsBooked sequence amount result
  unfolding compute_swap
  compute_swap-Books fuel sequence sequence' amount result h =
      let (u, e, fixed, other, fee, price) =
        result-amounts fuel sequence sequence' amount result h in
      let (steps, path) =
        swap_loop-Steps fuel (initial_state whirlpool_data sequence amount a_to_b) u e in
      let (r, c, f) = Steps-Books path in
      (
        steps,
        u,
        path,
        Steps-stopped path,
        fixed ∙ sub_cancel amount u.amount_remaining (fixed_total is_input steps) r,
        other ∙ c ∙ zero_add (other_total is_input steps),
        fee ∙ f ∙ zero_add (total_fee steps),
        price,
      )
