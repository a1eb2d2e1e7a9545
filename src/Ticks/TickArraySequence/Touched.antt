-- ===== src/Ticks/TickArraySequence/Touched.antt =====
-- The record of the arrays that a search has touched.
use solana_dex_v.Prelude.{
  ℕ, zero, suc, ◌-◌, ◌≤◌, ◌<◌, max, ◌≡◌, refl, sym, ap, ◌∙◌, ℤ, pos, negsuc, leb_ℤ, ltb_ℤ, ◌&&◌,
  Bool, true, false, Option, some, List, [], ◌∷◌, length, get_elem?, set, replicate, length-append,
  length-replicate, length-set, ◌⊎◌, inl, inr, ok, arith, Result-cases,
}
use solana_dex_v.Types.{TickData}
use solana_dex_v.Ticks.TickArraySequence.{
  TickArray, InitializedTickArray, TickArraySequence, initialized_prefix, new, new_from, count_true,
  get_num_of_touched_arrays, touched_addresses, pad_with_last, last_or, get_touched_arrays,
  get_tick, touch, get_local_array_index, is_array_index_in_bounds,
}
use solana_dex_v.Ticks.TickArrayIndex.{TickArrayIndex, from_tick_index}

count_true-set :
    (flags : List Bool) (i : ℕ) → count_true (set flags i true) ≤ suc (count_true flags)
count_true-set [] i = omega arith
count_true-set (true ∷ flags) zero = omega arith
count_true-set (false ∷ flags) zero = omega arith
count_true-set (true ∷ flags) (suc i) = omega (arith, count_true-set flags i)
count_true-set (false ∷ flags) (suc i) = count_true-set flags i

count_true-replicate : (n : ℕ) → count_true (replicate n false) ≡ 0
count_true-replicate zero = refl
count_true-replicate (suc n) = count_true-replicate n

count_true-set_pos :
    (flags : List Bool) (i : ℕ) → i < length flags → 0 < count_true (set flags i true)
count_true-set_pos [] i h = absurd (omega arith)
count_true-set_pos (b ∷ flags) zero h = omega arith
count_true-set_pos (true ∷ flags) (suc i) h = omega arith
count_true-set_pos (false ∷ flags) (suc i) h = count_true-set_pos flags i (omega arith)

get_elem?-set :
    (flags : List Bool) (i : ℕ) → i < length flags → get_elem? (set flags i true) i ≡ some true
get_elem?-set [] i h = absurd (omega arith)
get_elem?-set (b ∷ flags) zero h = refl
get_elem?-set (b ∷ flags) (suc i) h = get_elem?-set flags i (omega arith)

module _ {Key : Type 0} where
  -- There is a flag for each array.
  abbrev pub IsWellFormed : TickArraySequence Key → Type 0
  IsWellFormed s = length s.touched_arrays ≡ length s.sequence

  length-touched_addresses :
      (arrays : List (InitializedTickArray Key)) (touched : List Bool)
      → length touched ≡ length arrays
      → length (touched_addresses arrays touched) ≡ count_true touched
  unfolding touched_addresses
  length-touched_addresses [] [] h = refl
  length-touched_addresses [] (b ∷ touched) h = absurd (omega arith)
  length-touched_addresses (a ∷ arrays) [] h = absurd (omega arith)
  length-touched_addresses (a ∷ arrays) (true ∷ touched) h =
      ap suc (length-touched_addresses arrays touched (omega arith))
  length-touched_addresses (a ∷ arrays) (false ∷ touched) h =
      length-touched_addresses arrays touched (omega arith)

  length-pad_with_last :
      (n : ℕ) (x : Key) (xs : List Key)
      → length (pad_with_last n (x ∷ xs)) ≡ max n (suc (length xs))
  unfolding pad_with_last
  length-pad_with_last n x xs = omega (
    arith,
    length-append (x ∷ xs) (replicate (n - suc (length xs)) (last_or x xs)),
    length-replicate (n - suc (length xs)) (last_or x xs),
  )

  -- Of a well-formed sequence, the arrays that a quote names are none where none was touched, and else
  -- as many as the larger of the number asked for and the number touched.
  pub length-get_touched_arrays :
      (s : TickArraySequence Key) (n : ℕ)
      → IsWellFormed s
      → ((get_num_of_touched_arrays s ≡ 0) × (get_touched_arrays s n ≡ []))
        ⊎ ((0 < get_num_of_touched_arrays s)
            × (length (get_touched_arrays s n) ≡ max n (get_num_of_touched_arrays s)))
  unfolding get_touched_arrays get_num_of_touched_arrays pad_with_last
  length-get_touched_arrays s n h =
      padded (touched_addresses s.sequence s.touched_arrays)
        (length-touched_addresses s.sequence s.touched_arrays h)
    where
      padded :
          (keys : List Key)
          → length keys ≡ count_true s.touched_arrays
          → ((count_true s.touched_arrays ≡ 0) × (pad_with_last n keys ≡ []))
            ⊎ ((0 < count_true s.touched_arrays)
                × (length (pad_with_last n keys) ≡ max n (count_true s.touched_arrays)))
      padded [] e = inl (sym e, refl)
      padded (x ∷ xs) e = inr (omega arith, omega (arith, length-pad_with_last n x xs))

  -- A new sequence is well formed, has at least one array, and has touched none.
  pub new-IsWellFormed :
      (tick_arrays : List (TickArray Key)) (ts : ℕ) (a_to_b : Bool) (s : TickArraySequence Key)
      → new tick_arrays ts a_to_b ≡ ok s
      → IsWellFormed s × (get_num_of_touched_arrays s ≡ 0) × (0 < length s.sequence)
  unfolding new new_from get_num_of_touched_arrays
  new-IsWellFormed tick_arrays ts a_to_b s h = go (initialized_prefix tick_arrays) h
    where
      go :
          (arrays : List (InitializedTickArray Key))
          → new_from arrays ts a_to_b ≡ ok s
          → IsWellFormed s × (count_true s.touched_arrays ≡ 0) × (0 < length s.sequence)
      go [] e = cc
      go (a ∷ arrays) e = ground (
        arith,
        length-replicate (suc (length arrays)) false,
        count_true-replicate (suc (length arrays)),
      )

  touch-IsWellFormed :
      (s : TickArraySequence Key) (l : ℤ)
      → (leb_ℤ (pos 0) l && ltb_ℤ l (pos (length s.sequence))) ≡ true
      → IsWellFormed s
      → IsWellFormed (touch s l)
        × (count_true (touch s l).touched_arrays ≤ suc (count_true s.touched_arrays))
        × (0 < count_true (touch s l).touched_arrays)
  touch-IsWellFormed s (negsuc k) b w = absurd (ground arith)
  touch-IsWellFormed s (pos k) b w = (
    length-set s.touched_arrays k true ∙ w,
    count_true-set s.touched_arrays k,
    count_true-set_pos s.touched_arrays k (ground arith),
  )

  get_tick-touch :
      (s t : TickArraySequence Key) (i : ℤ) (tick : Option TickData)
      → get_tick s i ≡ ok (tick, t)
      → (j : TickArrayIndex) × (from_tick_index i s.tick_spacing ≡ ok j)
        × (is_array_index_in_bounds s j ≡ true)
        × (t ≡ touch s (get_local_array_index s j.array_index))
  unfolding get_tick
  get_tick-touch s t i tick h = elim (Result-cases (from_tick_index i s.tick_spacing)) [
    | inl (j, e) ↦ (j, ground arith, ground arith, ground arith)
    | inr (c, bad) ↦ absurd (ground arith)
  ]

  -- Reading a tick of a well-formed sequence keeps it well formed, leaves at least one array touched,
  -- and touches at most one more than before.
  pub get_tick-IsWellFormed :
      (s t : TickArraySequence Key) (i : ℤ) (tick : Option TickData)
      → get_tick s i ≡ ok (tick, t)
      → IsWellFormed s
      → IsWellFormed t
        × (get_num_of_touched_arrays t ≤ suc (get_num_of_touched_arrays s))
        × (0 < get_num_of_touched_arrays t)
  unfolding get_num_of_touched_arrays is_array_index_in_bounds
  get_tick-IsWellFormed s t i tick h w =
      let (j, e, inside, touched) = get_tick-touch s t i tick h in
      rw touched (touch-IsWellFormed s (get_local_array_index s j.array_index) inside w)
