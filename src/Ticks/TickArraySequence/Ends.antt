-- ===== src/Ticks/TickArraySequence/Ends.antt =====
-- The search for the next initialized tick ends: it looks at no more points than the arrays have.
use solana_dex_v.Prelude.{
  ℕ, zero, suc, ◌+◌, ◌*◌, ◌<◌, ◌≡◌, ◌≢◌, sym, ℤ, pos, negsuc, pos_part, neg_part, ◌+ℤ◌, ◌-ℤ◌,
  floor_div, leb_ℤ, ltb_ℤ, ◌&&◌, Bool, true, false, length, ok, err, out_of_fuel, arith, Bool-cases,
  inl, inr, Result-cases, if◌then◌else◌,
}
use solana_dex_v.Types.{TickData}
use solana_dex_v.Prelude.{Option}
use solana_dex_v.Ticks.TickArrayIndex.{to_tick_index}
use solana_dex_v.Ticks.TickArraySequence.{
  TickArraySequence, get_local_array_index, is_array_index_in_bounds, get_tick, step_index,
  search_from, find_next_initialized_tick_index,
}
use solana_dex_v.Ticks.TickArraySequence.Search.{
  grid_index, from_tick_index-grid, step_next, step_prev,
}

-- The points that are left, `l` the number of the current one, are fewer than the fuel.
abbrev Fits : Bool → ℤ → ℕ → ℤ → ℕ → Type 0
Fits true start len l fuel =
    pos_part l + 88 * len + 88 * neg_part start < 88 * pos_part start + neg_part l + 87 + fuel
Fits false start len l fuel =
    88 * pos_part start + 88 * len + neg_part l < 88 * neg_part start + pos_part l + fuel

abbrev step_of : Bool → ℤ → ℤ
step_of true l = l -ℤ pos 1
step_of false l = l +ℤ pos 1

Fits-next :
    (b : Bool) (start : ℤ) (len : ℕ) (l : ℤ) (fuel : ℕ)
    → Fits b start len l (suc fuel)
    → Fits b start len (step_of b l) fuel
Fits-next true start len l fuel h = ground arith
Fits-next false start len l fuel h = ground arith

local_index : Bool → ℤ → ℤ → ℤ
local_index b start i = if b then start -ℤ i else i -ℤ start

bounds-Fits :
    (b : Bool) (start : ℤ) (len : ℕ) (l : ℤ) (ts : ℕ)
    → let i = local_index b start (grid_index l ts).array_index in
      (leb_ℤ (pos 0) i && ltb_ℤ i (pos len)) ≡ true
      → Fits b start len l (suc (88 * len))
        × ((fuel : ℕ) → Fits b start len l (suc fuel) → 0 < fuel)
unfolding local_index
bounds-Fits true (pos s) len (pos l) ts h = (ground arith, λ fuel f. ground arith)
bounds-Fits true (pos s) len (negsuc l) ts h = (ground arith, λ fuel f. ground arith)
bounds-Fits true (negsuc s) len (pos l) ts h = (ground arith, λ fuel f. ground arith)
bounds-Fits true (negsuc s) len (negsuc l) ts h = (ground arith, λ fuel f. ground arith)
bounds-Fits false (pos s) len (pos l) ts h = (ground arith, λ fuel f. ground arith)
bounds-Fits false (pos s) len (negsuc l) ts h = (ground arith, λ fuel f. ground arith)
bounds-Fits false (negsuc s) len (pos l) ts h = (ground arith, λ fuel f. ground arith)
bounds-Fits false (negsuc s) len (negsuc l) ts h = (ground arith, λ fuel f. ground arith)

module _ {Key : Type 0} where
  in_bounds-Fits :
      (s : TickArraySequence Key) (l : ℤ) (ts : ℕ)
      → is_array_index_in_bounds s (grid_index l ts) ≡ true
      → Fits s.a_to_b s.start_array_index (length s.sequence) l (suc (88 * length s.sequence))
        × ((fuel : ℕ)
            → Fits s.a_to_b s.start_array_index (length s.sequence) l (suc fuel)
            → 0 < fuel)
  unfolding is_array_index_in_bounds get_local_array_index local_index
  in_bounds-Fits s l ts b = bounds-Fits s.a_to_b s.start_array_index (length s.sequence) l ts b

  Same : TickArraySequence Key → TickArraySequence Key → Type 0
  Same s t =
      (t.tick_spacing ≡ s.tick_spacing)
      × (t.a_to_b ≡ s.a_to_b)
      × (t.start_array_index ≡ s.start_array_index)
      × (t.sequence ≡ s.sequence)

  get_tick-Same :
      (s t : TickArraySequence Key) (i : ℤ) (tick : Option TickData)
      → get_tick s i ≡ ok (tick, t)
      → Same s t
  unfolding get_tick Same
  get_tick-Same s t i tick h = ground arith

  get_tick-has_fuel :
      (s : TickArraySequence Key) (i : ℤ) → 0 < s.tick_spacing → get_tick s i ≢ err out_of_fuel
  unfolding get_tick
  get_tick-has_fuel s i h e = ground (arith, from_tick_index-grid s.tick_spacing h i)

  step_index-grid :
      (s : TickArraySequence Key) (l : ℤ)
      → 0 < s.tick_spacing
      → step_index s (grid_index l s.tick_spacing)
        ≡ ok (grid_index (step_of s.a_to_b l) s.tick_spacing)
  step_index-grid s l h = ground (arith, step_next s.tick_spacing h l, step_prev s.tick_spacing h l)

  search_from-ends :
      (fuel : ℕ) (s : TickArraySequence Key) (l : ℤ)
      → 0 < fuel
      → 0 < s.tick_spacing
      → Fits s.a_to_b s.start_array_index (length s.sequence) l fuel
      → search_from fuel s (grid_index l s.tick_spacing) ≢ err out_of_fuel
  unfolding Same search_from
  search_from-ends zero s l p h f e = absurd (omega arith)
  search_from-ends (suc fuel) s l p h f e =
      let i = grid_index l s.tick_spacing in
      elim (Bool-cases (is_array_index_in_bounds s i)) [
        | inr out ↦ ground arith
        | inl b ↦ elim (Result-cases (get_tick s (to_tick_index i))) [
          | inr (c, bad) ↦ ground (arith, get_tick-has_fuel s (to_tick_index i) h)
          | inl (r, got) ↦
              let (spacing, direction, start, arrays) =
                get_tick-Same s r.1 (to_tick_index i) r.0 got in
              let next = Fits-next s.a_to_b s.start_array_index (length s.sequence) l fuel f in
              let left = (in_bounds-Fits s l s.tick_spacing b).1 fuel f in
              let rest =
                search_from-ends fuel r.1 (step_of s.a_to_b l) left (rw spacing h)
                  (rw (direction, start, arrays) next) in
              let rest' : search_from fuel r.1 (grid_index (step_of s.a_to_b l) s.tick_spacing)
                  ≢ err out_of_fuel =
                rw (sym spacing) rest in
              ground (arith, step_index-grid s l h)
        ]
      ]

  -- For a positive tick spacing the search ends: in either direction, over any arrays and from any
  -- tick, it looks at no more ticks than the arrays have room for, and gives a result or one of the
  -- code's own errors.
  pub find_next_initialized_tick_index-ends :
      (s : TickArraySequence Key) (curr_index : ℤ)
      → 0 < s.tick_spacing
      → find_next_initialized_tick_index s curr_index ≢ err out_of_fuel
  unfolding find_next_initialized_tick_index
  find_next_initialized_tick_index-ends s curr_index h e =
      let ts = s.tick_spacing in
      let l = floor_div (if s.a_to_b then curr_index else curr_index +ℤ pos ts) ts in
      let split =
        from_tick_index-grid ts h (if s.a_to_b then curr_index else curr_index +ℤ pos ts) in
      elim (Bool-cases (is_array_index_in_bounds s (grid_index l ts))) [
        | inr out ↦ ground arith
        | inl b ↦
            let ends =
              search_from-ends (suc (88 * length s.sequence)) s l (omega arith) h
                (in_bounds-Fits s l ts b).0 in
            ground arith
      ]
