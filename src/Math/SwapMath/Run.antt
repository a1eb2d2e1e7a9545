-- ===== src/Math/SwapMath/Run.antt =====
-- The parts of a step that returned: each call of `computeSwapStep` with its result.
use solana_dex_v.Prelude.{
  ℕ, ◌≡◌, ℤ, pos, ltb_ℤ, leb_ℤ, eq_ℤ, Bool, not, ◌&&◌, Result, ok, err, arith, if◌then◌else◌,
}
use solana_dex_v.Sdk.{MathUtil}
use solana_dex_v.Math.TokenMath.{get_next_sqrt_price}
use solana_dex_v.Math.SwapMath.{
  SwapStep, get_amount_fixed_delta, get_amount_unfixed_delta, get_amount_calc, get_fee_amount,
  compute_swap_step,
}

abbrev value : Result ℤ → ℤ
value (ok x) = x
value (err c) = pos 0

module _ (math : MathUtil) (remaining : ℤ) (fee_rate : ℕ) (liquidity curr target : ℤ)
    (is_input a_to_b : Bool) (s : SwapStep) where
  pub record Run : Type 0 where
    pub initial : ℤ
    pub calc : ℤ
    pub fixed : ℤ
    pub unfixed : ℤ
    pub at_initial : get_amount_fixed_delta math curr target liquidity is_input a_to_b ≡ ok initial
    pub at_calc : get_amount_calc remaining fee_rate is_input ≡ ok calc
    pub at_next :
        (if leb_ℤ initial calc
          then ok target
          else get_next_sqrt_price curr liquidity calc is_input a_to_b)
        ≡ ok s.next_price
    pub at_unfixed :
        get_amount_unfixed_delta math curr s.next_price liquidity is_input a_to_b ≡ ok unfixed
    pub at_fixed :
        (if eq_ℤ s.next_price target
          then ok initial
          else get_amount_fixed_delta math curr s.next_price liquidity is_input a_to_b)
        ≡ ok fixed
    pub in_eq : s.amount_in ≡ (if is_input then fixed else unfixed)
    pub out_eq : s.amount_out ≡ (
        if not is_input && ltb_ℤ remaining (if is_input then unfixed else fixed)
        then remaining
        else if is_input
        then unfixed
        else fixed)
    pub at_fee :
        get_fee_amount remaining fee_rate s.amount_in is_input (eq_ℤ s.next_price target)
        ≡ ok s.fee_amount

  pub compute_swap_step-Run :
      compute_swap_step math remaining fee_rate liquidity curr target is_input a_to_b ≡ ok s → Run
  unfolding compute_swap_step
  compute_swap_step-Run e = record {
    initial = value (get_amount_fixed_delta math curr target liquidity is_input a_to_b);
    calc = value (get_amount_calc remaining fee_rate is_input);
    fixed =
        if eq_ℤ s.next_price target
        then value (get_amount_fixed_delta math curr target liquidity is_input a_to_b)
        else value (get_amount_fixed_delta math curr s.next_price liquidity is_input a_to_b);
    unfixed = value (get_amount_unfixed_delta math curr s.next_price liquidity is_input a_to_b);
    at_initial = ground arith;
    at_calc = ground arith;
    at_next = ground arith;
    at_unfixed = ground arith;
    at_fixed = ground arith;
    in_eq = ground arith;
    out_eq = ground arith;
    at_fee = ground arith;
  }
