-- ===== src/Ticks/TickUtil/Search.antt =====
-- The search for an initialized tick inside one array.
use native.Mathlib.Decide.{dec_lt}
use solana_dex_v.Prelude.{
  ℕ, zero, suc, ◌+◌, ◌-◌, ◌≤◌, ◌<◌, ◌≡◌, refl, inl, inr, ℤ, pos, ◌+ℤ◌, ltb, true, false, Option,
  none, some, List, [], ◌∷◌, length, arith, Bool-cases, ltb→lt, ltb_false→le,
}
use solana_dex_v.Types.{TickData, TickArrayData}
use solana_dex_v.Ticks.TickUtil.{
  left, right, initialized_at, search_ticks, inner_index_to_tick_index, tick_index_to_inner_index,
  find_initialized_tick, find_next_initialized_tick_index, find_previous_initialized_tick_index,
}

initialized_at-beyond :
    (ticks : List TickData) (i : ℕ) → length ticks ≤ i → initialized_at ticks (pos i) ≡ false
initialized_at-beyond [] i h = refl
initialized_at-beyond (t ∷ ticks) zero h = absurd (omega arith)
initialized_at-beyond (t ∷ ticks) (suc i) h = initialized_at-beyond ticks i (omega arith)

module _ (account : TickArrayData) (ts : ℕ) where
  -- The first initialized tick at or after the offset `i`, or that there is none.
  abbrev pub FirstFrom : ℕ → Option ℤ → Type 0
  FirstFrom i none = (j : ℕ) → i ≤ j → initialized_at account.ticks (pos j) ≡ false
  FirstFrom i (some t) =
      (k : ℕ) × (t ≡ inner_index_to_tick_index account.start_tick_index (pos k) ts)
      × (i ≤ k)
      × (initialized_at account.ticks (pos k) ≡ true)
      × ((j : ℕ) → i ≤ j → j < k → initialized_at account.ticks (pos j) ≡ false)

  first_step_on :
      (i : ℕ) (r : Option ℤ)
      → initialized_at account.ticks (pos i) ≡ false
      → FirstFrom (i + 1) r
      → FirstFrom i r
  first_step_on i none no_tick h = λ j le. elim (dec_lt i j) [
    | yes beyond ↦ h j (omega arith)
    | no here ↦ let e : j ≡ i = omega arith in rw e no_tick
  ]
  first_step_on i (some t) no_tick (k, e, le, on, before) = (
    k,
    e,
    omega arith,
    on,
    λ j le lt. elim (dec_lt i j) [
      | yes beyond ↦ before j (omega arith) lt
      | no here ↦ let e : j ≡ i = omega arith in rw e no_tick
    ],
  )

  search_right :
      (fuel i : ℕ)
      → length account.ticks - i < fuel
      → (r : Option ℤ) × (search_ticks fuel account (pos i) ts right ≡ some r) × FirstFrom i r
  unfolding search_ticks
  search_right zero i h = absurd (omega arith)
  search_right (suc fuel) i h = elim (Bool-cases (ltb i (length account.ticks))) [
    | inl inside ↦ elim (Bool-cases (initialized_at account.ticks (pos i))) [
      | inl on ↦ (some _, ground arith, (i, refl, omega arith, on, λ j le lt. absurd (omega arith)))
      | inr off ↦
          let (r, e, first) =
            search_right fuel (i + 1) (omega (arith, ltb→lt i (length account.ticks) inside)) in
          (r, ground arith, first_step_on i r off first)
    ]
    | inr outside ↦ (
      none,
      ground arith,
      λ j le.
          initialized_at-beyond account.ticks j
            (omega (arith, ltb_false→le i (length account.ticks) outside)),
    )
  ]

  -- The last initialized tick at or before the offset `i`, or that there is none.
  abbrev pub LastUpTo : ℕ → Option ℤ → Type 0
  LastUpTo i none = (j : ℕ) → j ≤ i → initialized_at account.ticks (pos j) ≡ false
  LastUpTo i (some t) =
      (k : ℕ) × (t ≡ inner_index_to_tick_index account.start_tick_index (pos k) ts)
      × (k ≤ i)
      × (initialized_at account.ticks (pos k) ≡ true)
      × ((j : ℕ) → k < j → j ≤ i → initialized_at account.ticks (pos j) ≡ false)

  last_step_on :
      (i : ℕ) (r : Option ℤ)
      → initialized_at account.ticks (pos (suc i)) ≡ false
      → LastUpTo i r
      → LastUpTo (suc i) r
  last_step_on i none no_tick h = λ j le. elim (dec_lt i j) [
    | yes above ↦ let e : j ≡ suc i = omega arith in rw e no_tick
    | no below ↦ h j (omega arith)
  ]
  last_step_on i (some t) no_tick (k, e, le, on, after) = (
    k,
    e,
    omega arith,
    on,
    λ j lt le. elim (dec_lt i j) [
      | yes above ↦ let e : j ≡ suc i = omega arith in rw e no_tick
      | no below ↦ after j lt (omega arith)
    ],
  )

  search_left :
      (i fuel : ℕ)
      → i < length account.ticks
      → suc i < fuel
      → (r : Option ℤ) × (search_ticks fuel account (pos i) ts left ≡ some r) × LastUpTo i r
  unfolding search_ticks
  search_left i zero h m = absurd (omega arith)
  search_left zero (suc zero) h m = absurd (omega arith)
  search_left zero (suc (suc fuel)) h m = elim (Bool-cases (initialized_at account.ticks (pos 0))) [
    | inl on ↦ (some _, ground arith, (0, refl, omega arith, on, λ j lt le. absurd (omega arith)))
    | inr off ↦ (none, ground arith, λ j le. let e : j ≡ 0 = omega arith in rw e off)
  ]
  search_left (suc i) (suc fuel) h m =
      elim (Bool-cases (initialized_at account.ticks (pos (suc i)))) [
        | inl on ↦
            (some _, ground arith, (suc i, refl, omega arith, on, λ j lt le. absurd (omega arith)))
        | inr off ↦
            let (r, e, last) = search_left i fuel (omega arith) (omega arith) in
            (r, ground arith, last_step_on i r off last)
      ]

  -- Take a tick that is at most one grid point before the array, or that is in it or after it. The
  -- search to the right of it ends, and finds the first initialized tick of the array after that
  -- tick, or none where there is none.
  pub find_next_initialized_tick_index-FirstFrom :
      (current : ℤ) (i : ℕ)
      → tick_index_to_inner_index account.start_tick_index current ts +ℤ pos 1 ≡ pos i
      → (r : Option ℤ) × (find_next_initialized_tick_index account current ts ≡ some r)
        × FirstFrom i r
  unfolding find_next_initialized_tick_index find_initialized_tick
  find_next_initialized_tick_index-FirstFrom current i e =
      rw e (search_right (suc (length account.ticks)) i (omega arith))

  -- For a tick inside the array the search to the left ends, and finds the last initialized tick at or
  -- before that tick, or none where there is none.
  pub find_previous_initialized_tick_index-LastUpTo :
      (current : ℤ) (i : ℕ)
      → tick_index_to_inner_index account.start_tick_index current ts ≡ pos i
      → i < length account.ticks
      → (r : Option ℤ) × (find_previous_initialized_tick_index account current ts ≡ some r)
        × LastUpTo i r
  unfolding find_previous_initialized_tick_index find_initialized_tick
  find_previous_initialized_tick_index-LastUpTo current i e h =
      rw e (search_left i (suc (length account.ticks)) h (omega arith))
