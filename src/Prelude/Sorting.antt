-- ===== src/Prelude/Sorting.antt =====
-- `sort(compare)` of JavaScript arrays, which is stable, and `slice(0, n)`.
use Prim.Native.Nat.{ℕ, zero, suc, ◌≤◌}
use mathlib.Core.Path.{◌≡◌}
use mathlib.Core.Logic.{inl, inr}
use mathlib.Core.Bool.{Bool, true, false}
use mathlib.Core.List.{List, [], ◌∷◌}
use native.Mathlib.Omega.{arith}
use solana_dex_v.Prelude.Tests.{Bool-cases, if◌then◌else◌}
use solana_dex_v.Prelude.Lists.{length}
use solana_dex_v.Prelude.Collections.{All, AllPairs, All-imp}

module _ {ℓ} {A : Type ℓ} where
  -- `xs.slice(0, n)`.
  abbrev pub take : ℕ → List A → List A
  take zero xs = []
  take (suc n) [] = []
  take (suc n) (x ∷ xs) = x ∷ take n xs

  pub length-take-le : (n : ℕ) (xs : List A) → length (take n xs) ≤ n
  length-take-le zero xs = omega arith
  length-take-le (suc n) [] = omega arith
  length-take-le (suc n) (x ∷ xs) = omega (arith, length-take-le n xs)

  pub All-take {κ} : (P : A → Type κ) (n : ℕ) (xs : List A) → All P xs → All P (take n xs)
  All-take P zero xs h = tt
  All-take P (suc n) [] h = tt
  All-take P (suc n) (x ∷ xs) h = (h.0, All-take P n xs h.1)

  pub AllPairs-take {κ} :
      (R : A → A → Type κ) (n : ℕ) (xs : List A) → AllPairs R xs → AllPairs R (take n xs)
  AllPairs-take R zero xs h = tt
  AllPairs-take R (suc n) [] h = tt
  AllPairs-take R (suc n) (x ∷ xs) h = (All-take (R x) n xs h.0, AllPairs-take R n xs h.1)

  -- `up a b`: the comparison of a with b is not positive.
  module _ (up : A → A → Bool) where
    unfoldable pub insert_sorted : A → List A → List A
    insert_sorted x [] = x ∷ []
    insert_sorted x (y ∷ ys) = if up x y then x ∷ y ∷ ys else y ∷ insert_sorted x ys

    unfoldable pub sort_by : List A → List A
    sort_by [] = []
    sort_by (x ∷ xs) = insert_sorted x (sort_by xs)

    insert_sorted-All {κ} :
        (P : A → Type κ) (x : A) (ys : List A) → P x → All P ys → All P (insert_sorted x ys)
    unfolding insert_sorted
    insert_sorted-All P x [] px h = (px, tt)
    insert_sorted-All P x (y ∷ ys) px h = elim (Bool-cases (up x y)) [
      | inl before ↦ rw before (px, h)
      | inr after ↦ rw after (h.0, insert_sorted-All P x ys px h.1)
    ]

    pub sort_by-All {κ} : (P : A → Type κ) (xs : List A) → All P xs → All P (sort_by xs)
    unfolding sort_by
    sort_by-All P [] h = tt
    sort_by-All P (x ∷ xs) h = insert_sorted-All P x (sort_by xs) h.0 (sort_by-All P xs h.1)

    module _ (trans : (a b c : A) → up a b ≡ true → up b c ≡ true → up a c ≡ true)
        (total : (a b : A) → up a b ≡ false → up b a ≡ true) where
      abbrev Up : A → A → Type 0
      Up a b = up a b ≡ true

      insert_sorted-AllPairs :
          (x : A) (ys : List A) → AllPairs Up ys → AllPairs Up (insert_sorted x ys)
      unfolding insert_sorted
      insert_sorted-AllPairs x [] h = (tt, tt)
      insert_sorted-AllPairs x (y ∷ ys) h = elim (Bool-cases (up x y)) [
        | inl before ↦
            rw before ((before, All-imp (Up y) (Up x) ys (λ z le. trans x y z before le) h.0), h)
        | inr after ↦
            rw after
              (insert_sorted-All (Up y) x ys (total x y after) h.0, insert_sorted-AllPairs x ys h.1)
      ]

      pub sort_by-AllPairs : (xs : List A) → AllPairs Up (sort_by xs)
      unfolding sort_by
      sort_by-AllPairs [] = tt
      sort_by-AllPairs (x ∷ xs) = insert_sorted-AllPairs x (sort_by xs) (sort_by-AllPairs xs)
