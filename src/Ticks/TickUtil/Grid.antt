-- ===== src/Ticks/TickUtil/Grid.antt =====
-- The grid of initializable ticks, and the first tick of an array.
use native.Mathlib.Nat.{div-add-mod', mod-lt, mul-mod_left}
use solana_dex_v.Prelude.{
  ℕ, suc, ◌-◌, ◌*◌, ◌/◌, ◌%◌, ◌<◌, ◌≡◌, ℤ, pos, negsuc, ◌+ℤ◌, ◌≤ℤ◌, ◌<ℤ◌, ltb_ℤ, ltb, false,
  if◌then◌else◌, true, arith,
}
use solana_dex_v.Ticks.TickUtil.{get_initializable_tick_index, is_tick_initializable}

rem-pos_of_sub : (a ts : ℕ) → 0 < ts → (a - a % ts) % ts ≡ 0
rem-pos_of_sub a ts h =
    let whole : a - a % ts ≡ a / ts * ts = omega (arith, div-add-mod' a ts) in
    rw whole (mul-mod_left (a / ts) ts)

-- The nearest grid point towards zero, for a positive tick spacing: it is initializable; it is at most
-- the tick and less than a spacing below it if the tick is not negative; and it is at least the tick
-- and less than a spacing above it if the tick is negative.
pub get_initializable_tick_index-near :
    (tick : ℤ) (ts : ℕ)
    → 0 < ts
    → (is_tick_initializable (get_initializable_tick_index tick ts) ts ≡ true)
      × (if ltb_ℤ tick (pos 0)
          then (tick ≤ℤ get_initializable_tick_index tick ts)
            × (get_initializable_tick_index tick ts <ℤ tick +ℤ pos ts)
          else (get_initializable_tick_index tick ts ≤ℤ tick)
            × (tick <ℤ get_initializable_tick_index tick ts +ℤ pos ts))
unfolding get_initializable_tick_index is_tick_initializable
get_initializable_tick_index-near (pos a) ts h =
    let up : ltb a 0 ≡ false = ground arith in
    (
      ground (arith, rem-pos_of_sub a ts h, mod-lt a h),
      rw up (ground arith, ground (arith, mod-lt a h)),
    )
get_initializable_tick_index-near (negsuc a) ts h = (
  ground (arith, rem-pos_of_sub (suc a) ts h, mod-lt (suc a) h),
  (ground arith, ground (arith, mod-lt (suc a) h)),
)
