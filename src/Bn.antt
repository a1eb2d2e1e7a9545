-- ===== src/Bn.antt =====
-- The arbitrary-precision integers of bn.js are ℤ. Addition, subtraction, product and order are those
-- of ℤ; here are the operations that bn.js refuses on some arguments (a failed assertion): division
-- by zero, and shifts of a negative number. The constants are those that the program takes by name.
use solana_dex_v.Prelude.{
  ℕ, suc, ◌-◌, ◌*◌, ◌/◌, ◌%◌, ◌^◌, ℤ, pos, negsuc, sub_ℕ, Result, ok, err, assertion_failed, ◌==◌,
  if◌then◌else◌,
}

-- `a.div(b)`: rounds towards zero.
abbrev pub div : ℤ → ℤ → Result ℤ
div (pos a) (pos b) = if b == 0 then err assertion_failed else ok (pos (a / b))
div (negsuc a) (pos b) = if b == 0 then err assertion_failed else ok (sub_ℕ 0 (suc a / b))
div (pos a) (negsuc b) = ok (sub_ℕ 0 (a / suc b))
div (negsuc a) (negsuc b) = ok (pos (suc a / suc b))

-- `a.mod(b)`: the sign is that of `a`.
abbrev pub modulo : ℤ → ℤ → Result ℤ
modulo (pos a) (pos b) = if b == 0 then err assertion_failed else ok (pos (a % b))
modulo (negsuc a) (pos b) = if b == 0 then err assertion_failed else ok (sub_ℕ 0 (suc a % b))
modulo (pos a) (negsuc b) = ok (pos (a % suc b))
modulo (negsuc a) (negsuc b) = ok (sub_ℕ 0 (suc a % suc b))

-- `a.shln(k)` and `a.shrn(k)`.
abbrev pub shln : ℤ → ℕ → Result ℤ
shln (pos a) k = ok (pos (a * 2 ^ k))
shln (negsuc a) k = err assertion_failed

abbrev pub shrn : ℤ → ℕ → Result ℤ
shrn (pos a) k = ok (pos (a / 2 ^ k))
shrn (negsuc a) k = err assertion_failed

-- `a.imaskn(k)`.
abbrev pub mask : ℤ → ℕ → Result ℤ
mask (pos a) k = ok (pos (a % 2 ^ k))
mask (negsuc a) k = err assertion_failed

-- `a.and(U64_MAX)`.
abbrev pub and_u64_max : ℤ → Result ℤ
and_u64_max (pos a) = ok (pos (a % 2 ^ 64))
and_u64_max (negsuc a) = err assertion_failed

abbrev pub u64_max : ℤ
u64_max = pos (2 ^ 64 - 1)
