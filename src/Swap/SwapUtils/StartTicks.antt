-- ===== src/Swap/SwapUtils/StartTicks.antt =====
-- The tick arrays that a swap may cross: three arrays in a row, as far as there are ticks.
use native.Mathlib.Nat.{div-add-mod'}
use mathlib.Core.Path.{◌∙◌, ap, ap₂}
use solana_dex_v.Prelude.{
  ℕ, zero, suc, ◌+◌, ◌*◌, ◌/◌, ◌≡◌, ◌⊎◌, inl, inr, refl, ℤ, pos, sub_ℕ, ◌+ℤ◌, ◌-ℤ◌, ◌*ℤ◌, ◌≤ℤ◌,
  ◌<ℤ◌, leb_ℤ, rem, floor_div, Bool, true, false, Bool-cases, List, [], ◌∷◌, map, invariant_failed,
  leb_ℤ_iff, ok, err, arith, if◌then◌else◌,
}
use solana_dex_v.Types.{max_tick_index, min_tick_index}
use solana_dex_v.Ticks.TickUtil.{get_start_tick_index}
use solana_dex_v.Swap.SwapUtils.{
  TickArrayRequest, next_offset, keys_from, get_tick_array_public_keys,
}

-- The arrays from the one of a tick on, counted to the left or to the right: an array has 88 ticks.
abbrev pub steps : Bool → ℕ → ℤ
steps a_to_b i = if a_to_b then sub_ℕ 0 i else pos i

abbrev pub start_of : ℤ → ℕ → Bool → ℕ → ℤ
start_of tick ts a_to_b i = (floor_div tick (ts * 88) +ℤ steps a_to_b i) *ℤ pos ts *ℤ pos 88

-- One array below the one that the least tick -443636, rounded towards zero, starts.
abbrev pub lowest : ℕ → ℤ
lowest ts = sub_ℕ 0 ((443636 / (88 * ts) + 1) * (88 * ts))

abbrev pub IsStart : ℕ → ℤ → Type 0
IsStart ts s = (lowest ts ≤ℤ s) × (s ≤ℤ pos 443636)

abbrev pub IsOutside : ℕ → ℤ → Type 0
IsOutside ts s = (s <ℤ lowest ts) ⊎ (pos 443636 <ℤ s)

lowest_eq :
    (m : ℕ) → min_tick_index -ℤ (rem min_tick_index m +ℤ pos m) ≡ sub_ℕ 0 ((443636 / m + 1) * m)
lowest_eq m = ground (arith, div-add-mod' 443636 m)

leb_ℤ-gt : (a b : ℤ) → leb_ℤ a b ≡ false → b <ℤ a
leb_ℤ-gt a b h = ground arith

leb_lowest :
    (ts : ℕ) (s : ℤ) (b : Bool)
    → leb_ℤ (lowest ts) s ≡ b
    → leb_ℤ (min_tick_index -ℤ (rem min_tick_index (88 * ts) +ℤ pos (88 * ts))) s ≡ b
leb_lowest ts s b e = ap (λ x. leb_ℤ x s) (lowest_eq (88 * ts)) ∙ e

-- The start of an array is computed where it is one, and else the call fails.
get_start_tick_index-cases :
    (tick : ℤ) (ts : ℕ) (offset s : ℤ)
    → (floor_div tick (ts * 88) +ℤ offset) *ℤ pos ts *ℤ pos 88 ≡ s
    → ((get_start_tick_index tick ts offset ≡ ok s) × IsStart ts s)
      ⊎ ((get_start_tick_index tick ts offset ≡ err invariant_failed) × IsOutside ts s)
unfolding get_start_tick_index
get_start_tick_index-cases tick ts offset s same = elim (Bool-cases (leb_ℤ (lowest ts) s)) [
  | inr low ↦ inr (rw (same, leb_lowest ts s false low) refl, inl (leb_ℤ-gt (lowest ts) s low))
  | inl above ↦ elim (Bool-cases (leb_ℤ s max_tick_index)) [
    | inl below ↦ inl (
      rw (same, leb_lowest ts s true above, below) refl,
      ((leb_ℤ_iff (lowest ts) s).0 above, (leb_ℤ_iff s max_tick_index).0 below),
    )
    | inr high ↦
        inr (rw (same, leb_lowest ts s true above, high) refl, inr (leb_ℤ-gt s max_tick_index high))
  ]
]

steps_next : (a_to_b : Bool) (j : ℕ) → next_offset a_to_b (steps a_to_b j) ≡ steps a_to_b (suc j)
steps_next true zero = ground arith
steps_next true (suc j) = ground arith
steps_next false j = ground arith

first_step : (a_to_b : Bool) → pos 0 ≡ steps a_to_b 0
first_step true = ground arith
first_step false = refl

add_zero : (t : ℤ) → t +ℤ pos 0 ≡ t
add_zero t = ground arith

shifted :
    (a_to_b : Bool) (tick : ℤ) (ts : ℕ)
    → tick +ℤ (if a_to_b then pos 0 else pos ts) ≡ (if a_to_b then tick else tick +ℤ pos ts)
shifted true tick ts = add_zero tick
shifted false tick ts = refl

-- The starts of arrays in a row, from the j-th on: at most n, and fewer only at the end of the ticks.
abbrev pub IsRow : ℤ → ℕ → Bool → ℕ → ℕ → List ℤ → Type 0
IsRow tick ts a_to_b n j [] = (n ≡ 0) ⊎ IsOutside ts (start_of tick ts a_to_b j)
IsRow tick ts a_to_b n j (s ∷ starts) =
    (k : ℕ) × (n ≡ suc k)
    × (s ≡ start_of tick ts a_to_b j)
    × IsStart ts s
    × IsRow tick ts a_to_b k (suc j) starts

module _ {Key : Type 0} (find_address : Key → ℤ → Key) where
  keys_stop :
      (n : ℕ) (tick : ℤ) (ts : ℕ) (a_to_b : Bool) (pool : Key) (offset : ℤ)
      → get_start_tick_index tick ts offset ≡ err invariant_failed
      → keys_from find_address (suc n) tick ts a_to_b pool offset ≡ []
  unfolding keys_from
  keys_stop n tick ts a_to_b pool offset e = rw (e, keys_from) refl

  keys_step :
      (n : ℕ) (tick : ℤ) (ts : ℕ) (a_to_b : Bool) (pool : Key) (offset s : ℤ)
      → get_start_tick_index tick ts offset ≡ ok s
      → keys_from find_address (suc n) tick ts a_to_b pool offset
        ≡ find_address pool s
          ∷ keys_from find_address n tick ts a_to_b pool (next_offset a_to_b offset)
  unfolding keys_from
  keys_step n tick ts a_to_b pool offset s e = rw (e, keys_from) refl

  keys_from-IsRow :
      (n : ℕ) (tick : ℤ) (ts : ℕ) (a_to_b : Bool) (pool : Key) (j : ℕ)
      → (starts : List ℤ) × IsRow tick ts a_to_b n j starts
        × (keys_from find_address n tick ts a_to_b pool (steps a_to_b j)
            ≡ map (find_address pool) starts)
  unfolding keys_from
  keys_from-IsRow zero tick ts a_to_b pool j = ([], inl refl, refl)
  keys_from-IsRow (suc n) tick ts a_to_b pool j =
      elim (get_start_tick_index-cases tick ts (steps a_to_b j) (start_of tick ts a_to_b j) refl) [
        | inr (e, outside) ↦ ([], inr outside, keys_stop n tick ts a_to_b pool (steps a_to_b j) e)
        | inl (e, is_start) ↦
            let (starts, row, same) = keys_from-IsRow n tick ts a_to_b pool (suc j) in
            (
              start_of tick ts a_to_b j ∷ starts,
              (n, refl, refl, is_start, row),
              keys_step n tick ts a_to_b pool (steps a_to_b j) (start_of tick ts a_to_b j) e
                  ∙ ap (λ ks. find_address pool (start_of tick ts a_to_b j) ∷ ks)
                      (ap (keys_from find_address n tick ts a_to_b pool) (steps_next a_to_b j)
                        ∙ same),
            )
      ]

  -- The addresses of a request are those of the starts in a row from the tick, which is one spacing
  -- further to the right for a swap to the right.
  pub get_tick_array_public_keys-IsRow :
      (request : TickArrayRequest Key)
      → (starts : List ℤ) × IsRow
          (if request.a_to_b
            then request.tick_current_index
            else request.tick_current_index +ℤ pos request.tick_spacing)
          request.tick_spacing
          request.a_to_b
          3
          0
          starts
        × (get_tick_array_public_keys find_address request
            ≡ map (find_address request.whirlpool_address) starts)
  unfolding get_tick_array_public_keys
  get_tick_array_public_keys-IsRow request =
      let tick = request.tick_current_index in
      let ts = request.tick_spacing in
      let (starts, row, same) =
        keys_from-IsRow 3 (if request.a_to_b then tick else tick +ℤ pos ts) ts request.a_to_b
          request.whirlpool_address 0 in
      (
        starts,
        row,
        ap₂ (λ t o. keys_from find_address 3 t ts request.a_to_b request.whirlpool_address o)
              (shifted request.a_to_b tick ts) (first_step request.a_to_b)
            ∙ same,
      )
