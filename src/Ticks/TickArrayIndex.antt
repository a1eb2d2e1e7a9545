-- ===== src/Ticks/TickArrayIndex.antt =====
-- sdk/src/quotes/swap/tick-array-index.ts: a tick as the index of its array and the offset in it.
pub mod RoundTrip
use solana_dex_v.Prelude.{
  ℕ, ◌*◌, ℤ, pos, ◌+ℤ◌, ◌-ℤ◌, ◌*ℤ◌, leb_ℤ, ltb_ℤ, floor_div, rem, Result, ok, error, ◌>>=◌, ◌>>◌,
  throw_if, if◌then◌else◌,
}
use solana_dex_v.Types.{tick_array_size}

pub record TickArrayIndex : Type 0 where
  pub array_index : ℤ
  pub offset_index : ℤ
  pub tick_spacing : ℕ

-- The constructor. (A tick spacing is not negative here.)
unfoldable pub new : ℤ → ℤ → ℕ → Result TickArrayIndex
new array_index offset_index tick_spacing = do
  throw_if (leb_ℤ (pos tick_array_size) offset_index) error
  throw_if (ltb_ℤ offset_index (pos 0)) error
  ok (record {
    array_index = array_index;
    offset_index = offset_index;
    tick_spacing = tick_spacing;
  })

unfoldable pub from_tick_index : ℤ → ℕ → Result TickArrayIndex
from_tick_index index tick_spacing =
    let array_index = floor_div (floor_div index tick_spacing) tick_array_size in
    let offset_index = floor_div (rem index (tick_spacing * tick_array_size)) tick_spacing in
    let offset_index' =
      if ltb_ℤ offset_index (pos 0) then pos tick_array_size +ℤ offset_index else offset_index in
    new array_index offset_index' tick_spacing

unfoldable pub to_tick_index : TickArrayIndex → ℤ
to_tick_index i =
    i.array_index *ℤ pos tick_array_size *ℤ pos i.tick_spacing
    +ℤ i.offset_index *ℤ pos i.tick_spacing

unfoldable pub to_next_initializable_tick_index : TickArrayIndex → Result TickArrayIndex
to_next_initializable_tick_index i =
    from_tick_index (to_tick_index i +ℤ pos i.tick_spacing) i.tick_spacing

unfoldable pub to_prev_initializable_tick_index : TickArrayIndex → Result TickArrayIndex
to_prev_initializable_tick_index i =
    from_tick_index (to_tick_index i -ℤ pos i.tick_spacing) i.tick_spacing
