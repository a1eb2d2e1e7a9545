-- ===== src/Examples/Grid.antt =====
-- Ticks and prices on concrete numbers.
use solana_dex_v.Prelude.{
  ◌*◌, ◌≡◌, refl, ℤ, pos, negsuc, neg_ℤ, ◌+ℤ◌, ◌*ℤ◌, ◌≤ℤ◌, ◌<ℤ◌, floor_div, Bool, true, false,
  Option, some, [], ◌∷◌, ok, arith,
}
use solana_dex_v.Types.{TickData, TickArrayData}
use solana_dex_v.Ticks.TickUtil.{
  find_next_initialized_tick_index, find_previous_initialized_tick_index, get_start_tick_index,
  get_full_range_tick_index, get_initializable_tick_index, is_tick_initializable,
  check_tick_in_bounds, tick_index_to_inner_index, find_initialized_tick, search_ticks,
  inner_index_to_tick_index,
}
use solana_dex_v.Ticks.TickUtil.Search.{
  FirstFrom, LastUpTo, find_next_initialized_tick_index-FirstFrom,
  find_previous_initialized_tick_index-LastUpTo,
}
use solana_dex_v.Ticks.TickUtil.Range.{
  get_start_tick_index-holds, get_full_range_tick_index-greatest,
}
use solana_dex_v.Ticks.TickUtil.Grid.{get_initializable_tick_index-near}
use solana_dex_v.Ticks.TickArrayIndex.{TickArrayIndex}
use solana_dex_v.Ticks.TickArrayIndex.RoundTrip.{IsSplit, from_tick_index-to_tick_index}

abbrev tick : Bool → TickData
tick on = record {
  initialized = on;
  liquidity_net = pos 0;
  liquidity_gross = pos 0;
  fee_growth_outside_a = pos 0;
  fee_growth_outside_b = pos 0;
  reward_growths_outside = [];
}

abbrev array : TickArrayData
array = record {
  start_tick_index = pos 0;
  ticks = tick false ∷ tick true ∷ tick false ∷ tick true ∷ [];
}

from_tick_index-to_tick_index_example : (i : TickArrayIndex) × IsSplit (negsuc 99) 8 i
from_tick_index-to_tick_index_example = from_tick_index-to_tick_index (negsuc 99) 8 (omega arith)

-- From tick 9 at spacing 8: the grid point 1 is behind, and the next initialized tick is 24.
next_test : find_next_initialized_tick_index array (pos 9) 8 ≡ some (some (pos 24))
unfolding find_next_initialized_tick_index find_initialized_tick search_ticks
    tick_index_to_inner_index inner_index_to_tick_index
next_test = refl

inner_test :
    (tick_index_to_inner_index (pos 0) (pos 9) 8 +ℤ pos 1 ≡ pos 2)
    × (tick_index_to_inner_index (pos 0) (pos 17) 8 ≡ pos 2)
unfolding tick_index_to_inner_index
inner_test = (refl, refl)

tick_test :
    (check_tick_in_bounds (negsuc 99) ≡ true)
    × (check_tick_in_bounds (negsuc 15) ≡ true)
    × (is_tick_initializable (negsuc 15) 8 ≡ true)
unfolding check_tick_in_bounds is_tick_initializable
tick_test = (refl, refl, refl)

find_next_initialized_tick_index-FirstFrom_example :
    (r : Option ℤ) × (find_next_initialized_tick_index array (pos 9) 8 ≡ some r)
    × FirstFrom array 8 2 r
find_next_initialized_tick_index-FirstFrom_example =
    find_next_initialized_tick_index-FirstFrom array 8 (pos 9) 2 inner_test.0

find_previous_initialized_tick_index-LastUpTo_example :
    (r : Option ℤ) × (find_previous_initialized_tick_index array (pos 17) 8 ≡ some r)
    × LastUpTo array 8 2 r
find_previous_initialized_tick_index-LastUpTo_example =
    find_previous_initialized_tick_index-LastUpTo array 8 (pos 17) 2 inner_test.1 (omega arith)

get_start_tick_index-holds_example :
    (start : ℤ) × (get_start_tick_index (negsuc 99) 8 (pos 0) ≡ ok start)
    × (start ≡ floor_div (negsuc 99) (8 * 88) *ℤ pos (88 * 8))
    × (start ≤ℤ negsuc 99)
    × (negsuc 99 <ℤ start +ℤ pos (88 * 8))
get_start_tick_index-holds_example =
    get_start_tick_index-holds (negsuc 99) 8 (omega arith) tick_test.0

get_full_range_tick_index-greatest_example :
    ((get_full_range_tick_index 8).0 ≡ neg_ℤ (get_full_range_tick_index 8).1)
    × (is_tick_initializable (get_full_range_tick_index 8).0 8 ≡ true)
    × (is_tick_initializable (get_full_range_tick_index 8).1 8 ≡ true)
    × (check_tick_in_bounds (get_full_range_tick_index 8).0 ≡ true)
    × (check_tick_in_bounds (get_full_range_tick_index 8).1 ≡ true)
    × ((get_full_range_tick_index 8).0 ≤ℤ negsuc 15)
    × (negsuc 15 ≤ℤ (get_full_range_tick_index 8).1)
get_full_range_tick_index-greatest_example =
    get_full_range_tick_index-greatest 8 (omega arith) (negsuc 15) tick_test.1 tick_test.2

get_initializable_tick_index-near_example :
    (is_tick_initializable (get_initializable_tick_index (negsuc 99) 8) 8 ≡ true)
    × ((negsuc 99 ≤ℤ get_initializable_tick_index (negsuc 99) 8)
        × (get_initializable_tick_index (negsuc 99) 8 <ℤ negsuc 99 +ℤ pos 8))
get_initializable_tick_index-near_example =
    get_initializable_tick_index-near (negsuc 99) 8 (omega arith)
