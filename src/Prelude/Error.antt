-- ===== src/Prelude/Error.antt =====
-- sdk/src/errors/errors.ts: what the program throws, as values; and the results of fallible code.
use Prim.Native.Nat.{ℕ}
use mathlib.Core.Path.{◌≡◌, refl}
use mathlib.Core.Logic.{◌⊎◌, inl, inr}
use mathlib.Core.Bool.{Bool, true, false, not}

-- `error` is a plain `Error` with no code, `invariant_failed` a failed check of tiny-invariant,
-- `assertion_failed` a failed assertion inside bn.js and `type_error` a property of `undefined`. The
-- last is no error of the program: the fuel of a loop of the model ran out.
pub data ErrorCode : Type 0 where
  multiplication_overflow mul_div_overflow : ErrorCode
  multiplication_shift_right_overflow divide_by_zero : ErrorCode
  token_max_exceeded token_min_subceeded : ErrorCode
  invalid_dev_fee_percentage invalid_sqrt_price_limit_direction : ErrorCode
  sqrt_price_out_of_bounds zero_tradable_amount : ErrorCode
  amount_out_below_minimum amount_in_above_maximum : ErrorCode
  tick_array_crossing_above_max tick_array_index_not_initialized : ErrorCode
  tick_array_sequence_invalid : ErrorCode
  error invariant_failed assertion_failed type_error out_of_fuel : ErrorCode

-- To compare codes: JavaScript compares their strings.
abbrev pub error_number : ErrorCode → ℕ
error_number multiplication_overflow = 0
error_number mul_div_overflow = 1
error_number multiplication_shift_right_overflow = 2
error_number divide_by_zero = 3
error_number token_max_exceeded = 4
error_number token_min_subceeded = 5
error_number invalid_dev_fee_percentage = 6
error_number invalid_sqrt_price_limit_direction = 7
error_number sqrt_price_out_of_bounds = 8
error_number zero_tradable_amount = 9
error_number amount_out_below_minimum = 10
error_number amount_in_above_maximum = 11
error_number tick_array_crossing_above_max = 12
error_number tick_array_index_not_initialized = 13
error_number tick_array_sequence_invalid = 14
error_number error = 15
error_number invariant_failed = 16
error_number assertion_failed = 17
error_number type_error = 18
error_number out_of_fuel = 19

-- What a call throws, or what it returns.
pub data Result {ℓ} (Value : Type ℓ) : Type ℓ where
  err : ErrorCode → Result Value
  ok : Value → Result Value

-- `if (b) throw e`.
abbrev pub throw_if : Bool → ErrorCode → Result (Unit {0})
throw_if false thrown = ok tt
throw_if true thrown = err thrown

-- `invariant(b)`.
abbrev pub invariant : Bool → Result (Unit {0})
invariant holds = throw_if (not holds) invariant_failed

-- The rest of a function after a call that may throw.
infixl 5 ◌>>=◌
abbrev pub ◌>>=◌ {ℓ κ} :
    {Value : Type ℓ} {Next : Type κ} → Result Value → (Value → Result Next) → Result Next
err thrown >>= rest = err thrown
ok value >>= rest = rest value

infixl 5 ◌>>◌
abbrev pub ◌>>◌ {ℓ} : {Next : Type ℓ} → Result (Unit {0}) → Result Next → Result Next
check >> rest = check >>= (λ done. rest)

-- A function that returns has returned from its first call.
pub >>=-eq-ok {ℓ κ} :
    {Value : Type ℓ} {Next : Type κ} (call : Result Value) (rest : Value → Result Next)
    {returned : Next}
    → (call >>= rest) ≡ ok returned
    → (value : Value) × (call ≡ ok value) × (rest value ≡ ok returned)
>>=-eq-ok (err thrown) rest e = cc
>>=-eq-ok (ok value) rest e = (value, refl, e)

-- To split on a computed result and keep the equation.
pub Result-cases {ℓ} :
    {Value : Type ℓ} (call : Result Value)
    → ((value : Value) × (call ≡ ok value)) ⊎ ((thrown : ErrorCode) × (call ≡ err thrown))
Result-cases (err thrown) = inr (thrown, refl)
Result-cases (ok value) = inl (value, refl)

-- A result is returned, and has the property.
abbrev pub Ensures {ℓ} : {A : Type ℓ} → (A → Type 0) → Result A → Type 0
Ensures P (err thrown) = ⊥
Ensures P (ok value) = P value

pub Ensures->>= {ℓ κ} :
    {A : Type ℓ} {B : Type κ} (P : A → Type 0) (Q : B → Type 0) (call : Result A)
    (rest : A → Result B)
    → Ensures P call
    → ((value : A) → P value → Ensures Q (rest value))
    → Ensures Q (call >>= rest)
Ensures->>= P Q (err thrown) rest h f = absurd h
Ensures->>= P Q (ok value) rest h f = f value h

pub Ensures-ok {ℓ} :
    {A : Type ℓ} (P : A → Type 0) (call : Result A)
    → Ensures P call
    → (value : A) × (call ≡ ok value) × P value
Ensures-ok P (err thrown) h = absurd h
Ensures-ok P (ok value) h = (value, refl, h)
