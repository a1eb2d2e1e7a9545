-- ===== src/Swap/SwapUtils/Batches.antt =====
-- The arrays of a batch of requests are those of the requests one by one.
use mathlib.Core.Path.{◌∙◌, sym, ap, ap₂}
use solana_dex_v.Prelude.{
  ℕ, zero, suc, ◌+◌, ◌-◌, ◌≡◌, refl, ℤ, Option, List, [], ◌∷◌, ◌++◌, map, length, length-append,
  take, ok, arith,
}
use solana_dex_v.Types.{TickArrayData}
use solana_dex_v.Ticks.TickArraySequence.{TickArray}
use solana_dex_v.Swap.SwapUtils.{
  TickArrayRequest, drop, slice, get_tick_array_public_keys, collect_addresses, with_data,
  get_batch_tick_arrays, get_tick_arrays,
}

add_sub : (n m : ℕ) → n + m - n ≡ m
add_sub n m = omega arith

module _ {ℓ} {A : Type ℓ} where
  drop-append : (xs ys : List A) → drop (length xs) (xs ++ ys) ≡ ys
  drop-append [] ys = refl
  drop-append (x ∷ xs) ys = drop-append xs ys

  take-append : (xs ys : List A) → take (length xs) (xs ++ ys) ≡ xs
  take-append [] ys = refl
  take-append (x ∷ xs) ys = ap (λ zs. x ∷ zs) (take-append xs ys)

  append_assoc : (xs ys zs : List A) → (xs ++ ys) ++ zs ≡ xs ++ (ys ++ zs)
  append_assoc [] ys zs = refl
  append_assoc (x ∷ xs) ys zs = ap (λ ws. x ∷ ws) (append_assoc xs ys zs)

  append_nil : (xs : List A) → xs ++ [] ≡ xs
  append_nil [] = refl
  append_nil (x ∷ xs) = ap (λ ws. x ∷ ws) (append_nil xs)

  slice-append :
      (before xs after : List A)
      → slice (length before) (length before + length xs) (before ++ (xs ++ after)) ≡ xs
  slice-append before xs after =
      rw (add_sub (length before) (length xs), drop-append before (xs ++ after))
        (take-append xs after)

module _ {ℓ κ} {A : Type ℓ} {B : Type κ} (f : A → B) where
  take-map : (n : ℕ) (xs : List A) → take n (map f xs) ≡ map f (take n xs)
  take-map zero xs = refl
  take-map (suc n) [] = refl
  take-map (suc n) (x ∷ xs) = ap (λ zs. f x ∷ zs) (take-map n xs)

  drop-map : (n : ℕ) (xs : List A) → drop n (map f xs) ≡ map f (drop n xs)
  drop-map zero xs = refl
  drop-map (suc n) [] = refl
  drop-map (suc n) (x ∷ xs) = drop-map n xs

  slice-map :
      (start end : ℕ) (xs : List A) → slice start end (map f xs) ≡ map f (slice start end xs)
  slice-map start end xs = rw (drop-map start xs) (take-map (end - start) (drop start xs))

module _ {Key : Type 0} (find_address : Key → ℤ → Key) where
  all_keys : List (TickArrayRequest Key) → List Key
  all_keys [] = []
  all_keys (r ∷ rs) = get_tick_array_public_keys find_address r ++ all_keys rs

  -- Where the keys of each request stand, from `start` on.
  places : ℕ → List (TickArrayRequest Key) → List (ℕ × ℕ)
  places start [] = []
  places start (r ∷ rs) =
      let end = start + length (get_tick_array_public_keys find_address r) in
      (start, end) ∷ places end rs

  collect_addresses-eq :
      (rs : List (TickArrayRequest Key)) (addresses : List Key) (indices : List (ℕ × ℕ))
      → collect_addresses find_address rs addresses indices
        ≡ (addresses ++ all_keys rs, indices ++ places (length addresses) rs)
  unfolding collect_addresses all_keys places
  collect_addresses-eq [] addresses indices = rw (append_nil addresses, append_nil indices) refl
  collect_addresses-eq (r ∷ rs) addresses indices =
      let keys = get_tick_array_public_keys find_address r in
      rw
        (
          collect_addresses-eq rs (addresses ++ keys)
              (indices ++ (length addresses, length addresses + length keys) ∷ []),
          append_assoc addresses keys (all_keys rs),
          append_assoc indices ((length addresses, length addresses + length keys) ∷ [])
              (places (length (addresses ++ keys)) rs),
          length-append addresses keys,
        )
        refl

module _ {Key : Type 0} (account : Key → Option TickArrayData) where
  -- The array of an address.
  abbrev pub array_at : Key → TickArray Key
  array_at key = record { address = key; account_data = account key }

  with_data-map : (keys : List Key) → with_data keys (map account keys) ≡ map array_at keys
  unfolding with_data
  with_data-map [] = refl
  with_data-map (k ∷ ks) = ap (λ arrays. array_at k ∷ arrays) (with_data-map ks)

  slice-with_data :
      (all before xs after : List Key) (start end : ℕ)
      → all ≡ before ++ (xs ++ after)
      → length before ≡ start
      → length before + length xs ≡ end
      → with_data (slice start end all) (slice start end (map account all)) ≡ map array_at xs
  slice-with_data all before xs after start end split s e =
      rw (slice-map account start end all, same) (with_data-map xs)
    where
      same : slice start end all ≡ xs
      same = rw (split, sym s, sym e) (slice-append before xs after)

  -- What a batch gives: the arrays of each request.
  abbrev pub arrays_of : (Key → ℤ → Key) → TickArrayRequest Key → List (TickArray Key)
  arrays_of find_address request = map array_at (get_tick_array_public_keys find_address request)

  module _ (find_address : Key → ℤ → Key) (all : List Key) where
    places-arrays_of :
        (rs : List (TickArrayRequest Key)) (before : List Key) (start : ℕ)
        → all ≡ before ++ all_keys find_address rs
        → length before ≡ start
        → map
            (λ (i : ℕ × ℕ). with_data (slice i.0 i.1 all) (slice i.0 i.1 (map account all)))
            (places find_address start rs)
          ≡ map (arrays_of find_address) rs
    unfolding places all_keys
    places-arrays_of [] before start split s = refl
    places-arrays_of (r ∷ rs) before start split s =
        let keys = get_tick_array_public_keys find_address r in
        ap₂ (λ x xs. x ∷ xs)
          (slice-with_data all before keys (all_keys find_address rs) start (start + length keys)
            split s (omega (arith, s)))
          (places-arrays_of rs (before ++ keys) (start + length keys)
            (split ∙ sym (append_assoc before keys (all_keys find_address rs)))
            (omega (arith, s, length-append before keys)))

  -- The arrays of the requests one by one, each with the data of its own address.
  pub get_batch_tick_arrays-eq :
      (find_address : Key → ℤ → Key) (fetch : List Key → List (Option TickArrayData))
      (rs : List (TickArrayRequest Key))
      → ((keys : List Key) → fetch keys ≡ map account keys)
      → get_batch_tick_arrays find_address fetch rs ≡ map (arrays_of find_address) rs
  unfolding get_batch_tick_arrays
  get_batch_tick_arrays-eq find_address fetch rs fetches =
      rw (collect_addresses-eq find_address rs [] [], fetches (all_keys find_address rs))
        (places-arrays_of find_address (all_keys find_address rs) rs [] 0 refl refl)

  pub get_tick_arrays-eq :
      (find_address : Key → ℤ → Key) (fetch : List Key → List (Option TickArrayData))
      (r : TickArrayRequest Key)
      → ((keys : List Key) → fetch keys ≡ map account keys)
      → get_tick_arrays find_address fetch r ≡ ok (arrays_of find_address r)
  unfolding get_tick_arrays
  get_tick_arrays-eq find_address fetch r fetches =
      rw (get_batch_tick_arrays-eq find_address fetch (r ∷ []) fetches) refl
