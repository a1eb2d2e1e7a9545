-- ===== src/Ticks/TickUtil/Range.antt =====
-- The full range of a spacing, and the array that holds a tick.
use native.Mathlib.Nat.{
  div-add-mod', mod-lt, mul-mod_left, div-mul-le_self, mul-le-mul_right, le-div_iff_mul-le,
  mul_comm,
}
use solana_dex_v.Prelude.{
  ℕ, zero, suc, ◌*◌, ◌/◌, ◌%◌, ◌≤◌, ◌<◌, ◌≡◌, refl, ap, ℤ, pos, negsuc, sub_ℕ, ◌+ℤ◌, ◌-ℤ◌, ◌*ℤ◌,
  ◌≤ℤ◌, ◌<ℤ◌, neg_ℤ, rem, floor_div, leb_ℤ, true, ok, arith,
}
use solana_dex_v.Types.{max_tick_index, min_tick_index}
use solana_dex_v.Ticks.TickUtil.{
  is_tick_initializable, check_tick_in_bounds, get_full_range_tick_index, get_start_tick_index,
}

sub_mul : (n ts : ℕ) → sub_ℕ 0 n *ℤ pos ts ≡ sub_ℕ 0 (n * ts)
sub_mul zero ts = ground arith
sub_mul (suc n) ts = ground arith

-- A grid point below the largest tick is at most the largest grid point.
grid-le : (k ts : ℕ) → 0 < ts → k ≤ 443636 → k % ts ≡ 0 → k ≤ 443636 / ts * ts
grid-le k ts h le on =
    let below : k / ts ≤ 443636 / ts = (le-div_iff_mul-le h).1 (omega (arith, div-add-mod' k ts)) in
    omega (arith, div-add-mod' k ts, mul-le-mul_right {m = k / ts} {n = 443636 / ts} ts below)

module _ (ts : ℕ) (h : 0 < ts) where
  full_range : get_full_range_tick_index ts ≡ (sub_ℕ 0 (443636 / ts * ts), pos (443636 / ts * ts))
  unfolding get_full_range_tick_index
  full_range = rw (sub_mul (443636 / ts) ts)

  -- For a positive tick spacing the full range is symmetric, its ends can be initialized and are in
  -- bounds, and a tick in bounds that can be initialized lies between them.
  pub get_full_range_tick_index-greatest :
      (k : ℤ)
      → check_tick_in_bounds k ≡ true
      → is_tick_initializable k ts ≡ true
      → let range = get_full_range_tick_index ts in
        (range.0 ≡ neg_ℤ range.1)
        × (is_tick_initializable range.0 ts ≡ true)
        × (is_tick_initializable range.1 ts ≡ true)
        × (check_tick_in_bounds range.0 ≡ true)
        × (check_tick_in_bounds range.1 ≡ true)
        × (range.0 ≤ℤ k)
        × (k ≤ℤ range.1)
  unfolding is_tick_initializable check_tick_in_bounds
  get_full_range_tick_index-greatest k bounded on = rw full_range (
    refl,
    ground (arith, mul-mod_left (443636 / ts) ts),
    ground (arith, mul-mod_left (443636 / ts) ts),
    ground (arith, div-mul-le_self 443636 ts),
    ground (arith, div-mul-le_self 443636 ts),
    (inside k bounded on).0,
    (inside k bounded on).1,
  )
    where
      inside :
          (k : ℤ)
          → check_tick_in_bounds k ≡ true
          → is_tick_initializable k ts ≡ true
          → (sub_ℕ 0 (443636 / ts * ts) ≤ℤ k) × (k ≤ℤ pos (443636 / ts * ts))
      inside (pos a) b i = (ground arith, ground (arith, grid-le a ts h))
      inside (negsuc a) b i = (ground (arith, grid-le (suc a) ts h), ground arith)

least_start-le :
    (m x : ℕ)
    → 0 < m
    → x ≤ 443636 / m
    → leb_ℤ (min_tick_index -ℤ (rem min_tick_index m +ℤ pos m)) (sub_ℕ 0 (suc x * m)) ≡ true
least_start-le m x h le =
    ground (
      arith,
      div-add-mod' 443636 m,
      mod-lt 443636 h,
      mul-le-mul_right {m = x} {n = 443636 / m} m le,
    )

least_start-neg :
    (m x : ℕ) → 0 < m → leb_ℤ (min_tick_index -ℤ (rem min_tick_index m +ℤ pos m)) (pos x) ≡ true
least_start-neg m x h = ground (arith, mod-lt 443636 h)

negsuc_mul : (q ts : ℕ) → (negsuc q +ℤ pos 0) *ℤ pos ts *ℤ pos 88 ≡ sub_ℕ 0 (suc q * (88 * ts))
negsuc_mul q ts =
    let first : (negsuc q +ℤ pos 0) ≡ negsuc q = ground arith in
    rw (first, sub_mul (suc q * ts) 88) (ap (sub_ℕ 0) (omega arith))

start-ok :
    (tick start : ℤ) (ts : ℕ)
    → (floor_div tick (ts * 88) +ℤ pos 0) *ℤ pos ts *ℤ pos 88 ≡ start
    → leb_ℤ (min_tick_index -ℤ (rem min_tick_index (88 * ts) +ℤ pos (88 * ts))) start ≡ true
    → leb_ℤ start max_tick_index ≡ true
    → get_start_tick_index tick ts (pos 0) ≡ ok start
unfolding get_start_tick_index
start-ok tick start ts e least most = rw (e, least, most) refl

-- For a positive tick spacing, the array of a tick that is in bounds can be computed: its first tick
-- is a multiple of the array's width, is at most the tick, and the tick lies inside the width.
pub get_start_tick_index-holds :
    (tick : ℤ) (ts : ℕ)
    → 0 < ts
    → check_tick_in_bounds tick ≡ true
    → (start : ℤ) × (get_start_tick_index tick ts (pos 0) ≡ ok start)
      × (start ≡ floor_div tick (ts * 88) *ℤ pos (88 * ts))
      × (start ≤ℤ tick)
      × (tick <ℤ start +ℤ pos (88 * ts))
unfolding get_start_tick_index check_tick_in_bounds
get_start_tick_index-holds (pos a) ts h b =
    let q = a / (ts * 88) in
    let width : q * (ts * 88) ≡ q * (88 * ts) = omega arith in
    (
      pos (q * (88 * ts)),
      ground (
        arith,
        least_start-neg (88 * ts) (q * (88 * ts)) (omega arith),
        div-mul-le_self a (ts * 88),
        width,
      ),
      refl,
      omega (arith, div-mul-le_self a (ts * 88)),
      omega (arith, div-add-mod' a (ts * 88), mod-lt a {m = ts * 88} (omega arith)),
    )
get_start_tick_index-holds (negsuc a) ts h b =
    let w : ts * 88 ≡ 88 * ts = mul_comm ts 88 in
    let q = a / (ts * 88) in
    let pos_width : 0 < 88 * ts = omega arith in
    let in_bounds : a ≤ 443636 = ground arith in
    let le : q * (88 * ts) ≤ 443636 = omega (arith, w, div-mul-le_self a (ts * 88)) in
    let most : q ≤ 443636 / (88 * ts) = (le-div_iff_mul-le {k = 88 * ts} pos_width).1 le in
    let least = least_start-le (88 * ts) q (omega arith) most in
    (
      sub_ℕ 0 (suc q * (88 * ts)),
      start-ok (negsuc a) (sub_ℕ 0 (suc q * (88 * ts))) ts (negsuc_mul q ts) least (ground arith),
      refl,
      ground (arith, div-add-mod' a (ts * 88), mod-lt a {m = ts * 88} (omega arith)),
      ground (arith, div-mul-le_self a (ts * 88)),
    )
