-- ===== src/Math/BitMath/Rounding.antt =====
-- The rounding and the overflow checks of BitMath, at the non-negative numbers that the callers pass.
use native.Mathlib.Nat.{mul-pos, one-le-pow, div-mul-le_self, lt-div-mul-add, div-add-mod', mod-lt}
use native.Mathlib.Decide.{dec_lt}
use solana_dex_v.Prelude.{
  ℕ, zero, suc, ◌+◌, ◌-◌, ◌*◌, ◌/◌, ◌%◌, ◌^◌, ◌≤◌, ◌<◌, ◌≡◌, ◌⊎◌, inl, inr, ℤ, pos, Bool, true,
  false, Result, ok, err, multiplication_overflow, divide_by_zero, arith, ltb, if◌then◌else◌, ◌==◌,
  ◌&&◌, refl, Bool-cases, ltb→lt, ltb_false→le,
}
use solana_dex_v.Sdk.{MathUtil, IsFloor, IsCeil}
use solana_dex_v.Math.BitMath.{
  is_over_limit, mul, mul_div_round_up_if, div_round_up_if, checked_mul_shift_right_round_up_if,
}

abbrev pub Rounded : Bool → ℕ → ℕ → ℕ → Type 0
Rounded true q n d = IsCeil q n d
Rounded false q n d = IsFloor q n d

pub is_over_limit_lem : (n limit : ℕ) → is_over_limit (pos n) limit ≡ ltb (2 ^ limit - 1) n
unfolding is_over_limit
is_over_limit_lem n limit = ground (arith, one-le-pow limit 2)

pub mul-fits : (a b limit : ℕ) → a * b < 2 ^ limit → mul (pos a) (pos b) limit ≡ ok (pos (a * b))
unfolding mul
mul-fits a b limit h = ground (arith, is_over_limit_lem (a * b) limit)

pub mul_overflow :
    (a b limit : ℕ) → 2 ^ limit ≤ a * b → mul (pos a) (pos b) limit ≡ err multiplication_overflow
unfolding mul
mul_overflow a b limit h = ground (arith, is_over_limit_lem (a * b) limit, one-le-pow limit 2)

-- The quotient of `n` by `d`, rounded as told.
unfoldable pub rounded : Bool → ℕ → ℕ → ℕ
rounded true n d = if ltb 0 (n % d) then n / d + 1 else n / d
rounded false n d = n / d

pub rounded-Rounded : (up : Bool) (n d : ℕ) → 0 < d → Rounded up (rounded up n d) n d
unfolding rounded
rounded-Rounded true n d h = elim (Bool-cases (ltb 0 (n % d))) [
  | inl e ↦ rw e (omega (arith, div-add-mod' n d, mod-lt n h, ltb→lt 0 (n % d) e))
  | inr e ↦ rw e (omega (arith, div-add-mod' n d, ltb_false→le 0 (n % d) e))
]
rounded-Rounded false n d h = (div-mul-le_self n d, lt-div-mul-add h)

pub div_round_up_if_lem :
    (n d : ℕ) (up : Bool) → 0 < d → div_round_up_if (pos n) (pos d) up ≡ ok (pos (rounded up n d))
unfolding div_round_up_if rounded
div_round_up_if_lem n d true h = ground arith
div_round_up_if_lem n d false h = ground arith

pub mul_div-fits :
    (n0 n1 d limit : ℕ) (up : Bool)
    → 0 < d
    → n0 * n1 < 2 ^ limit
    → mul_div_round_up_if (pos n0) (pos n1) (pos d) up limit ≡ ok (pos (rounded up (n0 * n1) d))
unfolding mul_div_round_up_if rounded
mul_div-fits n0 n1 d limit true h fits = ground (arith, mul-fits n0 n1 limit)
mul_div-fits n0 n1 d limit false h fits = ground (arith, mul-fits n0 n1 limit)

abbrev pub MulDivCases : ℕ → ℕ → ℕ → Bool → ℕ → Result ℤ → Type 0
MulDivCases n0 n1 d up limit r =
    (d ≡ 0) × (r ≡ err divide_by_zero)
    ⊎ (0 < d) × (2 ^ limit ≤ n0 * n1) × (r ≡ err multiplication_overflow)
    ⊎ (0 < d) × (n0 * n1 < 2 ^ limit) × ((q : ℕ) × (r ≡ ok (pos q)) × Rounded up q (n0 * n1) d)

-- On non-negative numbers `mulDivRoundUpIf` fails with DivideByZero exactly at a zero denominator,
-- else with MultiplicationOverflow exactly where the product does not fit `limit` bits, and else
-- returns the quotient of the product, rounded up if told so and down otherwise.
pub mul_div_round_up_if-cases :
    (n0 n1 d limit : ℕ) (up : Bool)
    → MulDivCases n0 n1 d up limit (mul_div_round_up_if (pos n0) (pos n1) (pos d) up limit)
unfolding mul_div_round_up_if
mul_div_round_up_if-cases n0 n1 zero limit up = inl (refl, refl)
mul_div_round_up_if-cases n0 n1 (suc d) limit up = elim (dec_lt (n0 * n1) (2 ^ limit)) [
  | yes fits ↦ inr (
      inr (
        omega arith,
        fits,
        (
          rounded up (n0 * n1) (suc d),
          mul_div-fits n0 n1 (suc d) limit up (omega arith) fits,
          rounded-Rounded up (n0 * n1) (suc d) (omega arith),
        ),
      ))
  | no over ↦ inr (inl (omega arith, omega arith, ground (arith, mul_overflow n0 n1 limit)))
]

module _ (math : MathUtil) (n0 n1 limit : ℕ) (pos0 : 0 < n0) (pos1 : 0 < n1) where
  -- The integer part of the product of a number and a Q64.64 number.
  pub checked_mul_shift_right_lem :
      (up : Bool)
      → n0 * n1 < 2 ^ limit
      → checked_mul_shift_right_round_up_if math (pos n0) (pos n1) up limit ≡ (
          if up && ltb 0 (n0 * n1 / 2 ^ 64 % 2 ^ 64)
          then if n0 * n1 / 2 ^ 64 == 2 ^ 64 - 1
            then err multiplication_overflow
            else ok (pos (n0 * n1 / 2 ^ 64 + 1))
          else ok (pos (n0 * n1 / 2 ^ 64)))
  unfolding checked_mul_shift_right_round_up_if
  checked_mul_shift_right_lem up fits = ground (
    arith,
    mul-fits n0 n1 limit fits,
    is_over_limit_lem (n0 * n1) limit,
    math.from_x64_bn-pos (n0 * n1),
  )

pub mul-cases :
    (a b limit : ℕ)
    → (mul (pos a) (pos b) limit ≡ ok (pos (a * b)))
      ⊎ (mul (pos a) (pos b) limit ≡ err multiplication_overflow)
unfolding mul
mul-cases a b limit = ground arith

shift_right-zero :
    (math : MathUtil) (n0 n1 limit : ℕ) (up : Bool)
    → n0 * n1 ≡ 0
    → checked_mul_shift_right_round_up_if math (pos n0) (pos n1) up limit ≡ ok (pos 0)
unfolding checked_mul_shift_right_round_up_if
shift_right-zero math zero n1 limit up h = refl
shift_right-zero math (suc n0) zero limit up h = ground arith
shift_right-zero math (suc n0) (suc n1) limit up h = absurd (grind arith)

shift_right_overflow :
    (math : MathUtil) (n0 n1 limit : ℕ) (up : Bool)
    → 2 ^ limit ≤ n0 * n1
    → checked_mul_shift_right_round_up_if math (pos n0) (pos n1) up limit
      ≡ err multiplication_overflow
unfolding checked_mul_shift_right_round_up_if
shift_right_overflow math n0 n1 limit up h =
    ground (arith, mul_overflow n0 n1 limit h, one-le-pow limit 2)

-- The value that is returned where no error is.
abbrev shifted : Bool → ℕ → ℕ
shifted up p = if up && ltb 0 (p / 2 ^ 64 % 2 ^ 64) then p / 2 ^ 64 + 1 else p / 2 ^ 64

shifted_bounds :
    (up : Bool) (p : ℕ)
    → (p / 2 ^ 64 ≤ shifted up p) × (shifted up p ≤ p / 2 ^ 64 + (if up then 1 else 0))
shifted_bounds true p = ground arith
shifted_bounds false p = ground arith

checked_mul_shift_right-value :
    (math : MathUtil) (n0 n1 limit : ℕ) (up : Bool) {x : ℤ}
    → n0 * n1 < 2 ^ limit
    → checked_mul_shift_right_round_up_if math (pos n0) (pos n1) up limit ≡ ok x
    → x ≡ pos (shifted up (n0 * n1))
checked_mul_shift_right-value math zero n1 limit true fits e =
    ground (arith, shift_right-zero math 0 n1 limit true)
checked_mul_shift_right-value math zero n1 limit false fits e =
    ground (arith, shift_right-zero math 0 n1 limit false)
checked_mul_shift_right-value math (suc n0) zero limit up fits e =
    ground (arith, shift_right-zero math (suc n0) 0 limit up)
checked_mul_shift_right-value math (suc n0) (suc n1) limit up fits e = ground (
  arith,
  checked_mul_shift_right_lem math (suc n0) (suc n1) limit (omega arith) (omega arith) up fits,
)

-- A result of `checkedMulShiftRight` is the integer part of the product, or one more if rounding up.
pub checked_mul_shift_right-ok :
    (math : MathUtil) (n0 n1 limit : ℕ) (up : Bool) {x : ℤ}
    → checked_mul_shift_right_round_up_if math (pos n0) (pos n1) up limit ≡ ok x
    → (m : ℕ) × (x ≡ pos m)
      × (n0 * n1 / 2 ^ 64 ≤ m)
      × (m ≤ n0 * n1 / 2 ^ 64 + (if up then 1 else 0))
checked_mul_shift_right-ok math n0 n1 limit up e = elim (dec_lt (n0 * n1) (2 ^ limit)) [
  | yes fits ↦ (
    shifted up (n0 * n1),
    checked_mul_shift_right-value math n0 n1 limit up fits e,
    (shifted_bounds up (n0 * n1)).0,
    (shifted_bounds up (n0 * n1)).1,
  )
  | no over ↦ absurd (cc (shift_right_overflow math n0 n1 limit up (omega arith)))
]

-- Rounding up looks at the integer part of the product, where the on-chain program looks at the
-- fraction. For positive factors whose product fits the width: a product below one is returned as 0,
-- and an exact product of 1 to 2^64 - 2 is returned one too high. In both cases the result is not the
-- product rounded up.
pub checked_mul_shift_right-not-IsCeil :
    (math : MathUtil) (n0 n1 limit : ℕ)
    → 0 < n0
    → 0 < n1
    → n0 * n1 < 2 ^ limit
    → (n0 * n1 < 2 ^ 64
        → (checked_mul_shift_right_round_up_if math (pos n0) (pos n1) true limit ≡ ok (pos 0))
          × (¬ IsCeil 0 (n0 * n1) (2 ^ 64)))
      × (n0 * n1 % 2 ^ 64 ≡ 0
          → 2 ^ 64 ≤ n0 * n1
          → n0 * n1 < 2 ^ 64 * (2 ^ 64 - 1)
          → (checked_mul_shift_right_round_up_if math (pos n0) (pos n1) true limit
              ≡ ok (pos (n0 * n1 / 2 ^ 64 + 1)))
            × IsCeil (n0 * n1 / 2 ^ 64) (n0 * n1) (2 ^ 64)
            × (¬ IsCeil (n0 * n1 / 2 ^ 64 + 1) (n0 * n1) (2 ^ 64)))
checked_mul_shift_right-not-IsCeil math n0 n1 limit p0 p1 fits = (
  λ small. (
    ground (arith, checked_mul_shift_right_lem math n0 n1 limit p0 p1 true fits),
    λ c. ground (arith, mul-pos p0 p1, c.0),
  ),
  λ exact least most. (
    ground (arith, checked_mul_shift_right_lem math n0 n1 limit p0 p1 true fits),
    (omega arith, omega arith),
    λ c. omega (arith, c.0, c.1, exact, least, most),
  ),
)
