-- ===== src/Ticks/TickUtil.antt =====
-- sdk/src/utils/public/tick-utils.ts. Ticks are JavaScript numbers, exact at these magnitudes, and a
-- quotient of a quotient is rounded once, as there; a tick spacing is positive.
pub mod Search
pub mod Range
pub mod Grid
use solana_dex_v.Prelude.{
  ℕ, zero, suc, ◌*◌, ℤ, pos, negsuc, neg_ℤ, ◌+ℤ◌, ◌-ℤ◌, ◌*ℤ◌, leb_ℤ, ltb_ℤ, eq_ℤ, floor_div, rem,
  Bool, false, ◌&&◌, Option, none, some, List, [], ◌∷◌, length, get_elem?, Result, ok, err,
  invariant_failed, ◌>>◌, invariant, if◌then◌else◌,
}
use solana_dex_v.Types.{max_tick_index, min_tick_index, tick_array_size, TickData, TickArrayData}

unfoldable pub get_offset_index : ℤ → ℤ → ℕ → ℤ
get_offset_index tick_index array_start_index tick_spacing =
    floor_div (tick_index -ℤ array_start_index) tick_spacing

unfoldable pub get_start_tick_index : ℤ → ℕ → ℤ → Result ℤ
get_start_tick_index tick_index tick_spacing offset = do
  let real_index = floor_div tick_index (tick_spacing * tick_array_size)
  let start_tick_index = (real_index +ℤ offset) *ℤ pos tick_spacing *ℤ pos tick_array_size
  let ticks_in_array = tick_array_size * tick_spacing
  let least = min_tick_index -ℤ (rem min_tick_index ticks_in_array +ℤ pos ticks_in_array)
  invariant (leb_ℤ least start_tick_index)
  invariant (leb_ℤ start_tick_index max_tick_index)
  ok start_tick_index

unfoldable pub get_initializable_tick_index : ℤ → ℕ → ℤ
get_initializable_tick_index tick_index tick_spacing = tick_index -ℤ rem tick_index tick_spacing

unfoldable pub get_next_initializable_tick_index : ℤ → ℕ → ℤ
get_next_initializable_tick_index tick_index tick_spacing =
    get_initializable_tick_index tick_index tick_spacing +ℤ pos tick_spacing

unfoldable pub get_prev_initializable_tick_index : ℤ → ℕ → ℤ
get_prev_initializable_tick_index tick_index tick_spacing =
    get_initializable_tick_index tick_index tick_spacing -ℤ pos tick_spacing

unfoldable pub tick_index_to_inner_index : ℤ → ℤ → ℕ → ℤ
tick_index_to_inner_index start_tick_index tick_index tick_spacing =
    floor_div (tick_index -ℤ start_tick_index) tick_spacing

unfoldable pub inner_index_to_tick_index : ℤ → ℤ → ℕ → ℤ
inner_index_to_tick_index start_tick_index tick_array_index tick_spacing =
    start_tick_index +ℤ tick_array_index *ℤ pos tick_spacing

pub data TickSearchDirection : Type 0 where
  left right : TickSearchDirection

-- `ticks[i]?.initialized`: outside the array it is undefined, which is not true.
abbrev pub is_initialized : Option TickData → Bool
is_initialized none = false
is_initialized (some t) = t.initialized

abbrev pub initialized_at : List TickData → ℤ → Bool
initialized_at ticks (negsuc i) = false
initialized_at ticks (pos i) = is_initialized (get_elem? ticks i)

abbrev pub increment : TickSearchDirection → ℤ
increment right = pos 1
increment left = negsuc 0

-- The search loop, on fuel; the outer `none` means that the fuel ran out.
unfoldable pub search_ticks : ℕ → TickArrayData → ℤ → ℕ → TickSearchDirection → Option (Option ℤ)
search_ticks zero account step tick_spacing direction = none
search_ticks (suc fuel) account step tick_spacing direction =
    let rest = search_ticks fuel account (step +ℤ increment direction) tick_spacing direction in
    if leb_ℤ (pos 0) step && ltb_ℤ step (pos (length account.ticks))
    then if initialized_at account.ticks step
      then some (some (inner_index_to_tick_index account.start_tick_index step tick_spacing))
      else rest
    else some none

abbrev pub first_step : TickSearchDirection → ℤ → ℤ
first_step right current = current +ℤ increment right
first_step left current = current

unfoldable pub find_initialized_tick :
    TickArrayData → ℤ → ℕ → TickSearchDirection → Option (Option ℤ)
find_initialized_tick account current_tick_index tick_spacing direction =
    let current =
      tick_index_to_inner_index account.start_tick_index current_tick_index tick_spacing in
    search_ticks (suc (length account.ticks)) account (first_step direction current) tick_spacing
      direction

unfoldable pub find_previous_initialized_tick_index : TickArrayData → ℤ → ℕ → Option (Option ℤ)
find_previous_initialized_tick_index account current_tick_index tick_spacing =
    find_initialized_tick account current_tick_index tick_spacing left

unfoldable pub find_next_initialized_tick_index : TickArrayData → ℤ → ℕ → Option (Option ℤ)
find_next_initialized_tick_index account current_tick_index tick_spacing =
    find_initialized_tick account current_tick_index tick_spacing right

unfoldable pub check_tick_in_bounds : ℤ → Bool
check_tick_in_bounds tick = leb_ℤ tick max_tick_index && leb_ℤ min_tick_index tick

unfoldable pub is_tick_initializable : ℤ → ℕ → Bool
is_tick_initializable tick tick_spacing = eq_ℤ (rem tick tick_spacing) (pos 0)

unfoldable pub invert_tick : ℤ → ℤ
invert_tick tick = neg_ℤ tick

-- `Math.ceil(a / b)` for a positive `b`.
abbrev pub ceil_quotient : ℤ → ℕ → ℤ
ceil_quotient a b = neg_ℤ (floor_div (neg_ℤ a) b)

unfoldable pub get_full_range_tick_index : ℕ → ℤ × ℤ
get_full_range_tick_index tick_spacing = (
  ceil_quotient min_tick_index tick_spacing *ℤ pos tick_spacing,
  floor_div max_tick_index tick_spacing *ℤ pos tick_spacing,
)

unfoldable pub is_full_range : ℕ → ℤ → ℤ → Bool
is_full_range tick_spacing tick_lower_index tick_upper_index =
    let range = get_full_range_tick_index tick_spacing in
    eq_ℤ tick_lower_index range.0 && eq_ℤ tick_upper_index range.1

abbrev or_invariant_failed {ℓ} : {A : Type ℓ} → Option A → Result A
or_invariant_failed (some tick) = ok tick
or_invariant_failed none = err invariant_failed

abbrev pub tick_at : List TickData → ℤ → Option TickData
tick_at ticks (pos i) = get_elem? ticks i
tick_at ticks (negsuc i) = none

-- `TickArrayUtil.getTickFromArray`.
unfoldable pub get_tick_from_array : TickArrayData → ℤ → ℕ → Result TickData
get_tick_from_array tick_array tick_index tick_spacing =
    let real_index =
      tick_index_to_inner_index tick_array.start_tick_index tick_index tick_spacing in
    or_invariant_failed (tick_at tick_array.ticks real_index)

-- `TickArrayUtil.getUninitializedArrays`: the positions of the arrays that are missing.
unfoldable pub uninitialized_from {ℓ} : {A : Type ℓ} → ℕ → List (Option A) → List ℕ
uninitialized_from index [] = []
uninitialized_from index (some a ∷ rest) = uninitialized_from (suc index) rest
uninitialized_from index (none ∷ rest) = index ∷ uninitialized_from (suc index) rest

unfoldable pub get_uninitialized_arrays {ℓ} : {A : Type ℓ} → List (Option A) → List ℕ
get_uninitialized_arrays tick_arrays = uninitialized_from 0 tick_arrays
