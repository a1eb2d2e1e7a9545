-- ===== src/Prelude/Collections.antt =====
-- `some` and `filter` of JavaScript arrays by a Boolean test, and predicates on lists.
use mathlib.Core.Path.{◌≡◌, refl, sym, subst}
use mathlib.Core.Bool.{Bool, true, false, ◌||◌}
use mathlib.Core.List.{List, [], ◌∷◌, ◌++◌, Memᴰ}
use mathlib.Core.List.Memᴰ
use mathlib.Core.Option.{Option, none, some}
use native.Mathlib.Omega.{arith}
use mathlib.Core.Logic.{inl, inr}
use solana_dex_v.Prelude.Tests.{Bool-cases, if◌then◌else◌}

module _ {ℓ} {A : Type ℓ} where
  -- `xs.some(test)`.
  abbrev pub any_of : (A → Bool) → List A → Bool
  any_of test [] = false
  any_of test (x ∷ xs) = test x || any_of test xs

  -- `xs.filter(test)`.
  abbrev pub filter_by : (A → Bool) → List A → List A
  filter_by test [] = []
  filter_by test (x ∷ xs) = if test x then x ∷ filter_by test xs else filter_by test xs

  -- `xs[xs.length - 1]`.
  abbrev pub last_of : List A → Option A
  last_of [] = none
  last_of (x ∷ []) = some x
  last_of (x ∷ y ∷ xs) = last_of (y ∷ xs)

  abbrev pub All {κ} : (A → Type κ) → List A → Type κ
  All Good [] = Unit
  All Good (element ∷ rest) = Good element × All Good rest

  -- Every earlier element is in the relation with every later one.
  abbrev pub AllPairs {κ} : (A → A → Type κ) → List A → Type κ
  AllPairs R [] = Unit
  AllPairs R (x ∷ xs) = All (R x) xs × AllPairs R xs

  pub All-append {κ} :
      (Good : A → Type κ) (before after : List A)
      → All Good before
      → All Good after
      → All Good (before ++ after)
  All-append Good [] after nothing rest = rest
  All-append Good (b ∷ before) after both rest = (both.0, All-append Good before after both.1 rest)

  pub All-imp {κ μ} :
      (P : A → Type κ) (Q : A → Type μ) (xs : List A) → ((x : A) → P x → Q x) → All P xs → All Q xs
  All-imp P Q [] f h = tt
  All-imp P Q (x ∷ xs) f h = (f x h.0, All-imp P Q xs f h.1)

  pub All-mem {κ} : (P : A → Type κ) (xs : List A) → ((x : A) → Memᴰ x xs → P x) → All P xs
  All-mem P [] f = tt
  All-mem P (x ∷ xs) f = (f x (Memᴰ.head refl), All-mem P xs (λ y m. f y (Memᴰ.tail m)))

  pub All-at {κ} : (P : A → Type κ) (xs : List A) → All P xs → (x : A) → Memᴰ x xs → P x
  All-at P [] h x m = absurd (Memᴰ.not-nil m)
  All-at P (y ∷ ys) h x (Memᴰ.head e) = subst P (sym e) h.0
  All-at P (y ∷ ys) h x (Memᴰ.tail m) = All-at P ys h.1 x m

  pub AllPairs-concat {κ} :
      (R : A → A → Type κ) (xs : List A) (y : A)
      → AllPairs R xs
      → All (λ x. R x y) xs
      → AllPairs R (xs ++ y ∷ [])
  AllPairs-concat R [] y h e = (tt, tt)
  AllPairs-concat R (x ∷ xs) y h e =
      (All-append (R x) xs (y ∷ []) h.0 (e.0, tt), AllPairs-concat R xs y h.1 e.1)

  pub any_of-false :
      (test : A → Bool) (xs : List A)
      → any_of test xs ≡ false
      → (x : A) → Memᴰ x xs
      → test x ≡ false
  any_of-false test [] e x m = absurd (Memᴰ.not-nil m)
  any_of-false test (y ∷ ys) e x (Memᴰ.head p) = ground arith
  any_of-false test (y ∷ ys) e x (Memᴰ.tail m) = any_of-false test ys (ground arith) x m

  pub any_of-true :
      (test : A → Bool) (xs : List A)
      → any_of test xs ≡ true
      → (x : A) × Memᴰ x xs × (test x ≡ true)
  any_of-true test [] e = cc
  any_of-true test (y ∷ ys) e = elim (Bool-cases (test y)) [
    | inl holds ↦ (y, Memᴰ.head refl, holds)
    | inr fails ↦ let (x, m, holds) = any_of-true test ys (ground arith) in (x, Memᴰ.tail m, holds)
  ]

  pub any_of_mem :
      (test : A → Bool) (xs : List A) (x : A) → Memᴰ x xs → test x ≡ true → any_of test xs ≡ true
  any_of_mem test [] x m e = absurd (Memᴰ.not-nil m)
  any_of_mem test (y ∷ ys) x (Memᴰ.head p) e = ground arith
  any_of_mem test (y ∷ ys) x (Memᴰ.tail m) e = ground (arith, any_of_mem test ys x m e)

  -- What is in a filtered list.
  pub filter_by_mem :
      (test : A → Bool) (xs : List A) (x : A)
      → Memᴰ x (filter_by test xs)
      → Memᴰ x xs × (test x ≡ true)
  filter_by_mem test [] x m = absurd (Memᴰ.not-nil m)
  filter_by_mem test (y ∷ ys) x m = elim (Bool-cases (test y)) [
    | inl holds ↦ elim (Memᴰ.cases_cons (rw holds at m)) [
      | inl same ↦ (Memᴰ.head same, rw same holds)
      | inr later ↦ let (k, e) = filter_by_mem test ys x later in (Memᴰ.tail k, e)
    ]
    | inr fails ↦ let (k, e) = filter_by_mem test ys x (rw fails at m) in (Memᴰ.tail k, e)
  ]

  pub mem_filter_by :
      (test : A → Bool) (xs : List A) (x : A)
      → Memᴰ x xs
      → test x ≡ true
      → Memᴰ x (filter_by test xs)
  mem_filter_by test [] x m e = absurd (Memᴰ.not-nil m)
  mem_filter_by test (y ∷ ys) x (Memᴰ.head p) e =
      let kept : test y ≡ true = subst (λ z. test z ≡ true) p e in rw kept (Memᴰ.head p)
  mem_filter_by test (y ∷ ys) x (Memᴰ.tail m) e = elim (Bool-cases (test y)) [
    | inl holds ↦ rw holds (Memᴰ.tail (mem_filter_by test ys x m e))
    | inr fails ↦ rw fails (mem_filter_by test ys x m e)
  ]
