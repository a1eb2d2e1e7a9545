-- ===== src/Prelude/Texts.antt =====
-- JavaScript strings as lists of code units: equality, the order of `sort`, and `indexOf`.
use Prim.Native.Nat.{ℕ}
use mathlib.Core.Path.{◌≡◌, refl}
use mathlib.Core.Logic.{◌↔◌, ◌≢◌}
use mathlib.Core.Bool.{Bool, true, false, ◌&&◌, ◌||◌}
use mathlib.Core.List.{List, [], ◌∷◌}
use native.Mathlib.Omega.{arith}
use solana_dex_v.Prelude.Tests.{ltb, ◌==◌}

abbrev pub Text : Type 0
Text = List ℕ

-- `a === b`.
unfoldable pub text_eq : Text → Text → Bool
text_eq [] [] = true
text_eq [] (y ∷ ys) = false
text_eq (x ∷ xs) [] = false
text_eq (x ∷ xs) (y ∷ ys) = x == y && text_eq xs ys

-- `a < b`, the order by code units.
unfoldable pub text_ltb : Text → Text → Bool
text_ltb xs [] = false
text_ltb [] (y ∷ ys) = true
text_ltb (x ∷ xs) (y ∷ ys) = ltb x y || (x == y && text_ltb xs ys)

unfoldable pub starts_with : Text → Text → Bool
starts_with xs [] = true
starts_with [] (y ∷ ys) = false
starts_with (x ∷ xs) (y ∷ ys) = x == y && starts_with xs ys

-- `xs.indexOf(ys) !== -1`.
unfoldable pub includes : Text → Text → Bool
includes [] ys = starts_with [] ys
includes (x ∷ xs) ys = starts_with (x ∷ xs) ys || includes xs ys

pub text_eq_iff : (a b : Text) → (text_eq a b ≡ true) ↔ (a ≡ b)
unfolding text_eq
text_eq_iff [] [] = ground arith
text_eq_iff [] (y ∷ ys) = ground arith
text_eq_iff (x ∷ xs) [] = ground arith
text_eq_iff (x ∷ xs) (y ∷ ys) = ground (arith, text_eq_iff xs ys)

-- Two texts are ordered one way or the other, or equal.
pub text_ltb_total : (a b : Text) → a ≢ b → text_ltb a b ≡ false → text_ltb b a ≡ true
unfolding text_ltb
text_ltb_total [] [] h e = absurd (h refl)
text_ltb_total [] (y ∷ ys) h e = cc
text_ltb_total (x ∷ xs) [] h e = refl
text_ltb_total (x ∷ xs) (y ∷ ys) h e = ground (arith, text_ltb_total xs ys)

pub text_ltb_asymm : (a b : Text) → text_ltb a b ≡ true → text_ltb b a ≡ false
unfolding text_ltb
text_ltb_asymm xs [] e = cc
text_ltb_asymm [] (y ∷ ys) e = refl
text_ltb_asymm (x ∷ xs) (y ∷ ys) e = ground (arith, text_ltb_asymm xs ys)

pub starts_with_self : (a : Text) → starts_with a a ≡ true
unfolding starts_with
starts_with_self [] = refl
starts_with_self (x ∷ xs) = ground (arith, starts_with_self xs)

-- A text is found in itself.
pub includes_self : (a : Text) → includes a a ≡ true
unfolding includes
includes_self [] = starts_with_self []
includes_self (x ∷ xs) = ground (arith, starts_with_self (x ∷ xs))
