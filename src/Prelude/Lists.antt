-- ===== src/Prelude/Lists.antt =====
-- Lists measured and indexed by native numbers, under the library's names.
use Prim.Native.Nat.{ℕ, zero, suc, ◌+◌}
use mathlib.Core.Path.{◌≡◌, refl, ap}
use mathlib.Core.List.{List, [], ◌∷◌, ◌++◌, map}
use mathlib.Core.Option.{Option, none, some}
use native.Mathlib.Omega.{arith}
use mathlib.Core.Logic.{◌⊎◌, inl, inr}

module _ {ℓ} {A : Type ℓ} where
  abbrev pub length : List A → ℕ
  length [] = 0
  length (x ∷ xs) = suc (length xs)

  abbrev pub get_elem? : List A → ℕ → Option A
  get_elem? [] i = none
  get_elem? (x ∷ xs) zero = some x
  get_elem? (x ∷ xs) (suc i) = get_elem? xs i

  -- A write out of bounds changes nothing.
  abbrev pub set : List A → ℕ → A → List A
  set [] i v = []
  set (x ∷ xs) zero v = v ∷ xs
  set (x ∷ xs) (suc i) v = x ∷ set xs i v

  abbrev pub replicate : ℕ → A → List A
  replicate zero a = []
  replicate (suc n) a = a ∷ replicate n a

  pub length-append : (xs ys : List A) → length (xs ++ ys) ≡ length xs + length ys
  length-append [] ys = omega arith
  length-append (x ∷ xs) ys = omega (arith, length-append xs ys)

  pub length-set : (xs : List A) (i : ℕ) (v : A) → length (set xs i v) ≡ length xs
  length-set [] i v = refl
  length-set (x ∷ xs) zero v = refl
  length-set (x ∷ xs) (suc i) v = ap suc (length-set xs i v)

  pub length-replicate : (n : ℕ) (a : A) → length (replicate n a) ≡ n
  length-replicate zero a = refl
  length-replicate (suc n) a = ap suc (length-replicate n a)

-- What is read from a list after a write or an append.
pub get_elem?-concat {ℓ} :
    {A : Type ℓ} (xs : List A) (x : A) (i : ℕ) (v : A)
    → get_elem? (xs ++ x ∷ []) i ≡ some v
    → (get_elem? xs i ≡ some v) ⊎ ((length xs ≡ i) × (x ≡ v))
get_elem?-concat [] x zero v e = inr (refl, ground arith)
get_elem?-concat [] x (suc i) v e = cc
get_elem?-concat (y ∷ xs) x zero v e = inl e
get_elem?-concat (y ∷ xs) x (suc i) v e = elim (get_elem?-concat xs x i v e) [
  | inl old ↦ inl old
  | inr (same, new) ↦ inr (ap suc same, new)
]

pub get_elem?-set {ℓ} :
    {A : Type ℓ} (xs : List A) (i j : ℕ) (v found : A)
    → get_elem? (set xs i v) j ≡ some found
    → ((i ≡ j) × (v ≡ found)) ⊎ (get_elem? xs j ≡ some found)
get_elem?-set [] i j v found e = inr e
get_elem?-set (x ∷ xs) zero zero v found e = inl (refl, ground arith)
get_elem?-set (x ∷ xs) zero (suc j) v found e = inr e
get_elem?-set (x ∷ xs) (suc i) zero v found e = inr e
get_elem?-set (x ∷ xs) (suc i) (suc j) v found e = elim (get_elem?-set xs i j v found e) [
  | inl (same, is_found) ↦ inl (ap suc same, is_found)
  | inr old ↦ inr old
]

pub has_elem-set {ℓ} :
    {A : Type ℓ} (xs : List A) (i j : ℕ) (v x : A)
    → get_elem? xs j ≡ some x
    → (get_elem? (set xs i v) j ≡ some v) ⊎ (get_elem? (set xs i v) j ≡ some x)
has_elem-set [] i j v x e = inr e
has_elem-set (y ∷ xs) zero zero v x e = inl refl
has_elem-set (y ∷ xs) zero (suc j) v x e = inr e
has_elem-set (y ∷ xs) (suc i) zero v x e = inr e
has_elem-set (y ∷ xs) (suc i) (suc j) v x e = has_elem-set xs i j v x e

pub get_elem?-map {ℓ κ} :
    {A : Type ℓ} {B : Type κ} (f : A → B) (xs : List A) (i : ℕ) (x : A)
    → get_elem? xs i ≡ some x
    → get_elem? (map f xs) i ≡ some (f x)
get_elem?-map f [] i x e = cc
get_elem?-map f (y ∷ xs) zero x e = let same : y ≡ x = ground arith in rw same refl
get_elem?-map f (y ∷ xs) (suc i) x e = get_elem?-map f xs i x e
